-- ===== src/Kernel/Nvme/Success.antt =====
-- Transfers succeed where the controller completes its commands (kernel/nvme.c).
use mini_os.Base.{ℕ, ◌/◌, ◌%◌, ◌<◌, ◌≡◌}
use mini_os.Base.Bytes.{Memory}
use mini_os.Kernel.Nvme.{Sqe, Hardware, Nvme}

-- A controller that completes every command, in the first round of polling, with status 0.
abbrev pub Prompt : Hardware → Type 0
Prompt h =
    (c : Sqe) (phase : ℕ) (list : ℕ → ℕ) (m d : Memory)
    → phase < 2
    → (((h.answer c phase list m d).polls 0).0 / 65536 % 2 ≡ phase)
      × (((h.answer c phase list m d).polls 0).0 / 131072 % 32768 ≡ 0)
