-- ===== src/Kernel/Division/Tests.antt =====
-- A quotient of kernel/kernel.c's division.
use mini_os.Base.{◌≡◌, ◌/◌, ◌==◌, if◌then◌else◌, arith}
use mini_os.Kernel.Division.{div_u64_u32, div_u64_u32_lem}

div_u64_u32_lem_example :
    div_u64_u32 1234567890123456789 1000003
    ≡ (if 1000003 == 0 then 0 else 1234567890123456789 / 1000003)
div_u64_u32_lem_example = div_u64_u32_lem 1234567890123456789 1000003 (omega arith) (omega arith)
