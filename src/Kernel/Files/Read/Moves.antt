-- ===== src/Kernel/Files/Read/Moves.antt =====
-- The loop of SYS_FREAD of kernel/kernel.c on a RAM disk: the bytes that its rounds move.
use mini_os.Base.{
  ℕ, zero, suc, ◌+◌, ◌-◌, ◌*◌, ◌/◌, ◌%◌, ◌≤◌, ◌<◌, ◌≡◌, inl, inr, refl, ap, ◌∙◌, true, false, ◌&&◌,
  ◌==◌, ltb, arith, Bool-cases, dec_lt,
}
use mini_os.Base.Words.{add32}
use mini_os.Base.Bytes.{Memory, copy}
use mini_os.Kernel.Layout.{fs_dir_lba}
use mini_os.Kernel.Disk.{Disk, disk_read_sector}
use mini_os.Kernel.Disk.Sectors.{IsRam, Inside, disk_read_sectors-rd}
use mini_os.Kernel.Files.{
  OpenFile, ofile_flush, load_into, ofile_load_sector, Transfer, chunk_of, fread_step, fread_loop,
}

-- A descriptor for reading whose cache, if it is filled, holds the disk's sector.
pub record Reads (d : Disk) (f : OpenFile) : Type 0 where
  pub mode : f.writing ≡ false
  pub clean : f.sector_valid ≡ true → f.sector_dirty ≡ false
  pub cached :
      f.sector_valid ≡ true
      → (j : ℕ) → j < 512
      → f.sector j ≡ d.rd ((f.cur_lba - fs_dir_lba) * 512 + j)

-- The cache holds sector `lba`, and nothing else of the descriptor changed.
record Loaded (d : Disk) (f g : OpenFile) (lba : ℕ) : Type 0 where
  reads : Reads d g
  filled : (j : ℕ) → j < 512 → g.sector j ≡ d.rd ((lba - fs_dir_lba) * 512 + j)
  start : g.start ≡ f.start
  size : g.size ≡ f.size
  pos : g.pos ≡ f.pos
  used : g.used ≡ f.used
  entry : g.dir_index ≡ f.dir_index

module _ (d : Disk) (r : IsRam d) where
  flush_clean : (f : OpenFile) → Reads d f → ofile_flush f d ≡ (f, d)
  unfolding ofile_flush
  flush_clean f h = ground (arith, h.clean)

  read_sector :
      (lba : ℕ) (m : Memory) (j : ℕ)
      → Inside d lba 1
      → j < 512
      → disk_read_sector lba m 0 d j ≡ d.rd ((lba - fs_dir_lba) * 512 + j)
  unfolding disk_read_sector copy
  read_sector lba m j h lt =
      ground (arith, ap (λ (k : Memory). k j) (disk_read_sectors-rd lba 1 m 0 d r h))

  load_into-Loaded :
      (f : OpenFile) (lba : ℕ) → Reads d f → Inside d lba 1 → Loaded d f (load_into f lba d) lba
  unfolding load_into
  load_into-Loaded f lba h i = rw h.mode (record {
    reads = record {
      mode = refl;
      clean = λ _. refl;
      cached = λ _ j lt. read_sector lba f.sector j i lt;
    };
    filled = λ j lt. read_sector lba f.sector j i lt;
    start = refl;
    size = refl;
    pos = refl;
    used = refl;
    entry = refl;
  })

  load-Loaded :
      (f : OpenFile) (lba : ℕ)
      → Reads d f
      → Inside d lba 1
      → ((ofile_load_sector f lba d).1 ≡ d) × Loaded d f (ofile_load_sector f lba d).0 lba
  unfolding ofile_load_sector
  load-Loaded f lba h i = elim (Bool-cases (f.sector_valid && (f.cur_lba == lba))) [
    | inl hit ↦ rw hit (
      refl,
      record {
        reads = h;
        filled = λ j lt.
            let same : f.cur_lba ≡ lba = ground arith in rw (← same) (h.cached (ground arith) j lt);
        start = refl;
        size = refl;
        pos = refl;
        used = refl;
        entry = refl;
      },
    )
    | inr miss ↦ rw (miss, flush_clean f h) (refl, load_into-Loaded f lba h i)
  ]

  load-same :
      (d' : Disk) (f : OpenFile) (lba : ℕ)
      → d' ≡ d
      → Reads d f
      → Inside d lba 1
      → ((ofile_load_sector f lba d').1 ≡ d) × Loaded d f (ofile_load_sector f lba d').0 lba
  load-same d' f lba e h i = rw e (load-Loaded f lba h i)

  -- A transfer of `n` more bytes that the file still holds.
  pub record Ready (n : ℕ) (t : Transfer) : Type 0 where
    pub disk : t.disk ≡ d
    pub reads : Reads d t.file
    pub inside : Inside d t.file.start ((t.file.size + 511) / 512)
    pub left : t.file.pos + n ≤ t.file.size

  -- What a transfer of `n` bytes from `t` on has done in `u`.
  pub record Moved (off n : ℕ) (t u : Transfer) : Type 0 where
    pub disk : u.disk ≡ d
    pub reads : Reads d u.file
    pub start : u.file.start ≡ t.file.start
    pub size : u.file.size ≡ t.file.size
    pub pos : u.file.pos ≡ t.file.pos + n
    pub used : u.file.used ≡ t.file.used
    pub entry : u.file.dir_index ≡ t.file.dir_index
    pub done : u.done ≡ t.done + n
    pub bytes :
        (p : ℕ)
        → u.user p
          ≡ copy t.user (off + t.done) d.rd ((t.file.start - fs_dir_lba) * 512 + t.file.pos) n p

  fread_step-Moved :
      (off len : ℕ) (t : Transfer)
      → t.done < len
      → Ready (len - t.done) t
      → t.file.size < 2147483648
      → Moved off (chunk_of (t.file.pos % 512) (len - t.done)) t (fread_step off len t)
  unfolding fread_step copy
  fread_step-Moved off len t lt y small =
      let lba = add32 t.file.start (t.file.pos / 512) in
      let at : lba ≡ t.file.start + t.file.pos / 512 = omega (arith, y.inside, y.left, r.small) in
      let sec_off = t.file.pos % 512 in
      let chunk = chunk_of sec_off (len - t.done) in
      let f = (ofile_load_sector t.file lba t.disk).0 in
      let loaded =
        load-same t.disk t.file lba y.disk y.reads (omega (arith, y.inside, y.left, r.small)) in
      let kept = loaded.1 in
      record {
        disk = loaded.0;
        reads = record {
          mode = kept.reads.mode;
          clean = kept.reads.clean;
          cached = kept.reads.cached;
        };
        start = kept.start;
        size = kept.size;
        pos = ground (arith, kept.pos, y.left);
        used = kept.used;
        entry = kept.entry;
        done = refl;
        bytes = λ p. ground (arith, at, y.inside, kept.filled (sec_off + (p - (off + t.done))));
      }

  Moved-Ready : (off n m : ℕ) (t u : Transfer) → Ready (n + m) t → Moved off n t u → Ready m u
  Moved-Ready off n m t u y w = record {
    disk = w.disk;
    reads = w.reads;
    inside = rw (w.start, w.size) y.inside;
    left = omega (arith, w.pos, w.size, y.left);
  }

  Moved-trans :
      (off n m k : ℕ) (t u v : Transfer)
      → n + m ≡ k
      → fs_dir_lba ≤ t.file.start
      → Moved off n t u
      → Moved off m u v
      → Moved off k t v
  unfolding copy
  Moved-trans off n m k t u v e low w x = record {
    disk = x.disk;
    reads = x.reads;
    start = x.start ∙ w.start;
    size = x.size ∙ w.size;
    pos = omega (arith, x.pos, w.pos);
    used = x.used ∙ w.used;
    entry = x.entry ∙ w.entry;
    done = omega (arith, x.done, w.done);
    bytes = λ p. ground (arith, x.bytes p, w.bytes p, w.done, w.pos, w.start);
  }

  Moved-none : (off : ℕ) (t : Transfer) → Ready 0 t → Moved off 0 t t
  unfolding copy
  Moved-none off t y = record {
    disk = y.disk;
    reads = y.reads;
    start = refl;
    size = refl;
    pos = omega arith;
    used = refl;
    entry = refl;
    done = omega arith;
    bytes = λ p. ground arith;
  }

  -- The loop moves all of it, on fuel for one byte a round.
  pub fread_loop-Moved :
      (fuel off len : ℕ) (t : Transfer)
      → len - t.done ≤ fuel
      → Ready (len - t.done) t
      → t.file.size < 2147483648
      → Moved off (len - t.done) t (fread_loop fuel off len t)
  unfolding fread_loop
  fread_loop-Moved zero off len t h y small =
      let none_left : len - t.done ≡ 0 = omega arith in
      rw none_left (Moved-none off t (rw none_left at y))
  fread_loop-Moved (suc fuel) off len t h y small = elim (dec_lt t.done len) [
    | yes lt ↦
        let c = chunk_of (t.file.pos % 512) (len - t.done) in
        let u = fread_step off len t in
        let w = fread_step-Moved off len t lt y small in
        let go : ltb t.done len ≡ true = ground arith in
        let split : c + (len - u.done) ≡ len - t.done = ground (arith, w.done) in
        let z = Moved-Ready off c (len - u.done) t u (rw split y) w in
        rw go (
          Moved-trans off c (len - u.done) (len - t.done) t u (fread_loop fuel off len u) split
            y.inside.0 w
            (fread_loop-Moved fuel off len u (ground (arith, w.done)) z (omega (arith, w.size))))
    | no ge ↦
        let stop : ltb t.done len ≡ false = ground arith in
        let none_left : len - t.done ≡ 0 = omega arith in
        rw (stop, none_left) (Moved-none off t (rw none_left at y))
  ]
