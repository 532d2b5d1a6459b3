-- ===== src/Ramfs/Names.antt =====
-- What the creation of files (kernel/fs/ramfs/ramfs.c) puts into the list.
use xhopin.Base.{
  ℕ, ◌≡◌, refl, ◌∙◌, ap, sym, ◌==◌, if◌then◌else◌, List, ◌∷◌, Option, none, some, Run, ok, ◌>>=◌,
  Rc, success, failure, Post, Post-bind, Post-if, Post-ok, Post_any,
}
use xhopin.Kernel.{Allocator}
use xhopin.Ramfs.{File, RamfsCtx, ramfs_create, find_file, str_copy}

module _ (A : Allocator) where
  open A use {Mem, alloc, free}

  -- A failure changes no file; a success puts a new file in front.
  abbrev pub IsCreated : RamfsCtx → Rc × RamfsCtx × Mem → Type 0
  IsCreated fs (failure, fs', m) = fs' ≡ fs
  IsCreated fs (success, fs', m) =
      (p : ℕ) × (f : File) × (fs'.files ≡ (p, f) ∷ fs.files)
      × (f.size ≡ 0)
      × (f.start_block ≡ fs.next_free_block)
      × (fs'.next_free_block ≡ fs.next_free_block)

  ramfs_create-IsCreated :
      (name : List ℕ) (fs : RamfsCtx) (m : Mem) → Post (IsCreated fs) (ramfs_create A name fs m)
  unfolding ramfs_create
  ramfs_create-IsCreated name fs m =
      Post-bind (λ _. Unit {0}) (IsCreated fs) (find_file fs.files name) _ (Post_any _)
        (λ found _. created found)
    where
      p : ℕ
      p = (alloc 44 m).0

      m' : Mem
      m' = (alloc 44 m).1

      made : Run (Rc × RamfsCtx × Mem)
      made = do
        copied ← str_copy 32 name
        ok (
          success,
          record fs {
            files =
                (p, record { name = copied; size = 0; start_block = fs.next_free_block })
                ∷ fs.files;
          },
          m',
        )

      created :
          (o : Option (ℕ × File))
          → Post (IsCreated fs) (elim o [
            | some node ↦ ok (failure, fs, m)
            | none ↦ if p == 0 then ok (failure, fs, m') else made
          ])
      created (some node) = refl
      created none =
          Post-if (IsCreated fs) (p == 0) _ _ (λ e. refl)
            (λ e.
              Post-bind (λ _. Unit {0}) (IsCreated fs) (str_copy 32 name) _ (Post_any _)
                (λ copied _. (
                  p,
                  record { name = copied; size = 0; start_block = fs.next_free_block },
                  refl,
                  refl,
                  refl,
                  refl,
                )))

  -- Two files that are created with success one right after the other start at the same block.
  pub ramfs_create-same_block :
      (a b : List ℕ) (fs fs1 fs2 : RamfsCtx) (m m1 m2 : Mem)
      → ramfs_create A a fs m ≡ ok (success, fs1, m1)
      → ramfs_create A b fs1 m1 ≡ ok (success, fs2, m2)
      → (p q : ℕ) × (f g : File) × (fs2.files ≡ (q, g) ∷ ((p, f) ∷ fs.files))
        × (g.start_block ≡ f.start_block)
  ramfs_create-same_block a b fs fs1 fs2 m m1 m2 made made' =
      let (p, f, files, _, start, next) =
        Post-ok (IsCreated fs) (ramfs_create A a fs m) (success, fs1, m1)
          (ramfs_create-IsCreated a fs m) made in
      let (q, g, files', _, start', next') =
        Post-ok (IsCreated fs1) (ramfs_create A b fs1 m1) (success, fs2, m2)
          (ramfs_create-IsCreated b fs1 m1) made' in
      (p, q, f, g, files' ∙ ap (λ xs. (q, g) ∷ xs) files, start' ∙ next ∙ sym start)
