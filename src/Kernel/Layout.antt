-- ===== src/Kernel/Layout.antt =====
-- The constants of kernel/kernel.c. The sector counts are those that build.sh passes to the
-- compiler: STAGE2_SECTORS 8, KERNEL_SECTORS 128, DIR_SECTORS 64.
use mini_os.Base.{ℕ}

abbrev pub page_size : ℕ
page_size = 4096

abbrev pub user_fb_offset : ℕ
user_fb_offset = 25165824

abbrev pub user_fb_size : ℕ
user_fb_size = 16777216

abbrev pub user_space_size : ℕ
user_space_size = 100663296

abbrev pub user_mmio_offset : ℕ
user_mmio_offset = 41943040

abbrev pub user_mmio_size : ℕ
user_mmio_size = 16777216

abbrev pub user_dma_offset : ℕ
user_dma_offset = 58720256

abbrev pub user_dma_size : ℕ
user_dma_size = 16777216

-- USER_STACK_GUARD_OFF: one page and a megabyte below the framebuffer window.
abbrev pub user_stack_guard_off : ℕ
user_stack_guard_off = 24113152

abbrev pub fs_dir_lba : ℕ
fs_dir_lba = 137

abbrev pub dir_sectors : ℕ
dir_sectors = 64

abbrev pub fs_data_lba : ℕ
fs_data_lba = 201

-- DIR_SECTORS * 512 / sizeof(dirent_t)
abbrev pub dir_entries : ℕ
dir_entries = 512

abbrev pub fs_name_len : ℕ
fs_name_len = 47

abbrev pub open_max : ℕ
open_max = 8

-- `(u32)-1`, what a system call returns on failure.
abbrev pub err : ℕ
err = 4294967295
