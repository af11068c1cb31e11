-- ===== src/Kernel/Files.antt =====
-- Open files (kernel/kernel.c): the descriptor table, the one-sector cache of each descriptor, and
-- SYS_OPEN, SYS_FREAD, SYS_FWRITE, SYS_CLOSE and SYS_SEEK. Numbers are uint32_t.
pub mod Read
pub mod Cache
pub mod Table
mod Tests
use mini_os.Base.{
  ℕ, zero, suc, ◌+◌, ◌-◌, ◌*◌, ◌/◌, ◌%◌, Bool, true, false, not, ◌&&◌, ◌||◌, List, [], ◌∷◌, ◌==◌,
  ltb, leb, if◌then◌else◌, Option, none, some, get_or, set, take,
}
use mini_os.Base.Words.{add32, sub32}
use mini_os.Base.Bytes.{Memory, copy, fill}
use mini_os.Kernel.Layout.{open_max, err}
use mini_os.Kernel.Names.{CString, strlen}
use mini_os.Kernel.UserMemory.{user_range_ok}
use mini_os.Kernel.Disk.{Disk, disk_read_sector, disk_write_sector}
use mini_os.Kernel.Fs.{
  Fs, Dirent, entry_at, fs_find, unused_from, fs_next_free, fs_next_free_excl, fs_sync_dir,
}
use mini_os.Kernel.Fs.Calls.{name_arg}

-- `open_file_t`; `writing` is `mode == 1`, and the only other mode of a descriptor in use is 0.
pub record OpenFile : Type 0 where
  pub used : Bool
  pub writing : Bool
  pub dir_index : ℕ
  pub start : ℕ
  pub size : ℕ
  pub pos : ℕ
  pub cur_lba : ℕ
  pub sector_valid : Bool
  pub sector_dirty : Bool
  pub sector : Memory

-- What `memset(f, 0, sizeof(*f))` leaves.
abbrev pub closed : OpenFile
closed = record {
  used = false;
  writing = false;
  dir_index = 0;
  start = 0;
  size = 0;
  pos = 0;
  cur_lba = 0;
  sector_valid = false;
  sector_dirty = false;
  sector = λ _. 0;
}

pub record Io : Type 0 where
  pub fs : Fs
  pub ofiles : List OpenFile

-- The first descriptor from index `i` on that is not in use.
unfoldable pub alloc_from : List OpenFile → ℕ → Option ℕ
alloc_from [] i = none
alloc_from (f ∷ fs) i = if not f.used then some i else alloc_from fs (i + 1)

unfoldable pub alloc_fd : Io → Option ℕ
unfolding alloc_from
alloc_fd io = alloc_from io.ofiles 0

-- The table index that a descriptor stands for; `none` is the null pointer. `fd - 3` is negative
-- for a small descriptor and for one that is negative as an int.
unfoldable pub get_ofile : ℕ → Io → Option ℕ
get_ofile fd io =
    if ltb fd 3 || leb (open_max + 3) fd
    then none
    else if (get_or io.ofiles (fd - 3) closed).used
    then some (fd - 3)
    else none

abbrev pub file_at : Io → ℕ → OpenFile
file_at io i = get_or io.ofiles i closed

unfoldable pub ofile_flush : OpenFile → Disk → OpenFile × Disk
ofile_flush f d =
    if not f.sector_valid || not f.sector_dirty
    then (f, d)
    else (record f { sector_dirty = false }, disk_write_sector f.cur_lba f.sector d)

-- `f->size / 512 + (f->size % 512 ? 1 : 0)`.
abbrev pub file_sectors : OpenFile → ℕ
file_sectors f = f.size / 512 + (if f.size % 512 == 0 then 0 else 1)

-- The sector read into the cache, after the flush. The test compares the sector's number on the
-- disk with the number of the file's sectors.
unfoldable pub load_into : OpenFile → ℕ → Disk → OpenFile
load_into f lba d =
    let g : OpenFile = record f { cur_lba = lba; sector_valid = true; sector_dirty = false } in
    if f.writing && leb (file_sectors f) lba
    then record g { sector = fill f.sector 0 0 512 }
    else record g { sector = disk_read_sector lba f.sector 0 d }

unfoldable pub ofile_load_sector : OpenFile → ℕ → Disk → OpenFile × Disk
ofile_load_sector f lba d =
    if f.sector_valid && (f.cur_lba == lba)
    then (f, d)
    else let (g, d') = ofile_flush f d in (load_into g lba d', d')

-- The entry that SYS_OPEN writes for a new or truncated file. The name is cut at 15 characters.
abbrev pub opened_name : CString → CString
opened_name name = take (if ltb 15 (strlen name) then 15 else strlen name) name

-- Opening for reading, from the search on.
unfoldable pub open_read : ℕ → Option ℕ → Io → ℕ × Io
open_read fd none io = (err, record io { ofiles = set io.ofiles fd closed })
open_read fd (some idx) io =
    let e = entry_at io.fs idx in
    let f : OpenFile = record closed {
      used = true;
      dir_index = idx;
      start = e.start;
      size = e.size;
    } in
    (fd + 3, record io { ofiles = set io.ofiles fd f })

-- Opening for writing at entry `idx` with the data at `start`.
unfoldable pub open_at : ℕ → CString → ℕ → ℕ → Io → ℕ × Io
open_at fd name idx start io =
    let e : Dirent = record (entry_at io.fs idx) {
      name = opened_name name;
      start = start;
      size = 0;
      flags = 0;
    } in
    let f : OpenFile = record closed {
      used = true;
      writing = true;
      dir_index = idx;
      start = start;
    } in
    (
      fd + 3,
      record {
        fs = fs_sync_dir (record (io.fs) { dir = set io.fs.dir idx e });
        ofiles = set io.ofiles fd f;
      },
    )

unfoldable pub open_write : ℕ → CString → Option ℕ → Io → ℕ × Io
open_write fd name (some idx) io = open_at fd name idx (fs_next_free_excl idx io.fs) io
open_write fd name none io = elim (unused_from io.fs.dir 0) [
  | none ↦ (err, record io { ofiles = set io.ofiles fd closed })
  | some idx ↦ open_at fd name idx (fs_next_free io.fs) io
]

-- SYS_OPEN.
unfoldable pub sys_open : ℕ → ℕ → Memory → Io → ℕ × Io
sys_open name_off mode user io = elim (name_arg user name_off) [
  | none ↦ (err, io)
  | some name ↦ elim (alloc_fd io) [
    | none ↦ (err, io)
    | some fd ↦
        let idx = fs_find name io.fs in
        if mode == 0
        then open_read fd idx io
        else if mode == 1
        then open_write fd name idx io
        else (err, record io { ofiles = set io.ofiles fd closed })
  ]
]

-- A transfer under way: the descriptor, the program's memory, the disk and the bytes done.
pub record Transfer : Type 0 where
  pub file : OpenFile
  pub user : Memory
  pub disk : Disk
  pub done : ℕ

-- `512 - sec_off`, cut to what is left.
abbrev pub chunk_of : ℕ → ℕ → ℕ
chunk_of sec_off left = if ltb left (512 - sec_off) then left else 512 - sec_off

-- One round of SYS_FREAD into `off`.
unfoldable pub fread_step : ℕ → ℕ → Transfer → Transfer
fread_step off len t =
    let lba = add32 t.file.start (t.file.pos / 512) in
    let sec_off = t.file.pos % 512 in
    let (f, d) = ofile_load_sector t.file lba t.disk in
    let chunk = chunk_of sec_off (len - t.done) in
    record {
      file = record f { pos = add32 f.pos chunk };
      user = copy t.user (off + t.done) f.sector sec_off chunk;
      disk = d;
      done = t.done + chunk;
    }

-- `while (done < len)` with fuel.
unfoldable pub fread_loop : ℕ → ℕ → ℕ → Transfer → Transfer
fread_loop zero off len t = t
fread_loop (suc fuel) off len t =
    let more = fread_loop fuel off len (fread_step off len t) in if ltb t.done len then more else t

-- One round of SYS_FWRITE from `off`; a sector that is filled is written out.
unfoldable pub fwrite_step : ℕ → ℕ → Transfer → Transfer
fwrite_step off len t =
    let lba = add32 t.file.start (t.file.pos / 512) in
    let sec_off = t.file.pos % 512 in
    let (f, d) = ofile_load_sector t.file lba t.disk in
    let chunk = chunk_of sec_off (len - t.done) in
    let pos = add32 f.pos chunk in
    let g : OpenFile = record f {
      sector = copy f.sector sec_off t.user (off + t.done) chunk;
      sector_dirty = true;
      pos = pos;
      size = if ltb f.size pos then pos else f.size;
    } in
    let (h, d') = ofile_flush g d in
    if sec_off + chunk == 512
    then record {
      file = record h { sector_valid = false };
      user = t.user;
      disk = d';
      done = t.done + chunk;
    }
    else record { file = g; user = t.user; disk = d; done = t.done + chunk }

unfoldable pub fwrite_loop : ℕ → ℕ → ℕ → Transfer → Transfer
fwrite_loop zero off len t = t
fwrite_loop (suc fuel) off len t =
    let more = fwrite_loop fuel off len (fwrite_step off len t) in
    if ltb t.done len then more else t

abbrev pub put_file : Io → ℕ → OpenFile → Disk → Io
put_file io i f d = record { fs = record (io.fs) { disk = d }; ofiles = set io.ofiles i f }

-- SYS_FREAD from the lookup of the descriptor on. A round moves at least one byte, so `len` rounds
-- are enough.
unfoldable pub fread_at : ℕ → ℕ → ℕ → Memory → Io → ℕ × Memory × Io
fread_at i off len user io =
    let f = file_at io i in
    if f.writing
    then (err, user, io)
    else if (len == 0) || leb f.size f.pos
    then (0, user, io)
    else let n = if ltb (f.size - f.pos) len then f.size - f.pos else len in
      let t = fread_loop n off n (record { file = f; user = user; disk = io.fs.disk; done = 0 }) in
      (t.done, t.user, put_file io i t.file t.disk)

unfoldable pub sys_fread : ℕ → ℕ → ℕ → Memory → Io → ℕ × Memory × Io
sys_fread fd off len user io =
    if not (user_range_ok off len)
    then (err, user, io)
    else elim (get_ofile fd io) [ none ↦ (err, user, io) | some i ↦ fread_at i off len user io ]

unfoldable pub fwrite_at : ℕ → ℕ → ℕ → Memory → Io → ℕ × Io
fwrite_at i off len user io =
    let f = file_at io i in
    if not f.writing
    then (err, io)
    else if len == 0
    then (0, io)
    else let t =
        fwrite_loop len off len (record { file = f; user = user; disk = io.fs.disk; done = 0 }) in
      (t.done, put_file io i t.file t.disk)

unfoldable pub sys_fwrite : ℕ → ℕ → ℕ → Memory → Io → ℕ × Io
sys_fwrite fd off len user io =
    if not (user_range_ok off len)
    then (err, io)
    else elim (get_ofile fd io) [ none ↦ (err, io) | some i ↦ fwrite_at i off len user io ]

-- The directory entry that a written file gets when it is closed.
unfoldable pub commit : OpenFile → Disk → Fs → Fs
commit f d fs =
    let e : Dirent = record (entry_at fs f.dir_index) {
      start = f.start;
      size = f.size;
      flags = 0;
    } in
    fs_sync_dir (record { dir = set fs.dir f.dir_index e; disk = d })

-- SYS_CLOSE.
unfoldable pub close_at : ℕ → Io → ℕ × Io
close_at i io =
    let f = file_at io i in
    let (g, d) = ofile_flush f io.fs.disk in
    let fs = (if f.writing then commit g d io.fs else io.fs) in
    (0, record { fs = fs; ofiles = set io.ofiles i closed })

unfoldable pub sys_close : ℕ → Io → ℕ × Io
sys_close fd io = elim (get_ofile fd io) [ none ↦ (err, io) | some i ↦ close_at i io ]

-- SYS_SEEK: a position that is negative as an int is 0, one past the end is the end.
unfoldable pub seek_at : ℕ → ℕ → Io → ℕ × Io
seek_at i pos io =
    let f = file_at io i in
    let fl = (if f.writing then ofile_flush f io.fs.disk else (f, io.fs.disk)) in
    let p = if leb 2147483648 pos then 0 else pos in
    let q = if ltb f.size p then f.size else p in
    let g : OpenFile = record (fl.0) { pos = q; sector_valid = false; sector_dirty = false } in
    (q, put_file io i g fl.1)

unfoldable pub sys_seek : ℕ → ℕ → Io → ℕ × Io
sys_seek fd pos io = elim (get_ofile fd io) [ none ↦ (err, io) | some i ↦ seek_at i pos io ]
