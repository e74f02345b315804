-- ===== src/Windows/Directory/Entries.antt =====
-- The iterator of a directory on Windows shows its entries but for `.` and `..`.
use ckcore.Base.{
  ℕ, zero, suc, ◌<◌, ◌≤◌, ◌≡◌, refl, ap, ◌∙◌, true, false, none, some, List, [], ◌∷◌, returns,
  length, arith, Bool-cases, inl, inr,
}
use mathlib.Core.Path.{subst}
use ckcore.Directory.{Directory, is_dot}
use ckcore.Directory.Entries.{visible, first, others}
use ckcore.Windows.Directory.{
  DirCalls, Iterator, next_loop, next, advance, opened, open_first, pattern_of,
}

-- What FindNextFile does: a handle has entries to come, and a call gives the next one.
pub record Finds {S : Type 0} (calls : DirCalls S) : Type 0 where
  pub rest : S → ℕ → List (List ℕ)
  pub next_lem :
      (s : S) (handle : ℕ)
      → ((calls.find_next s handle).0 ≡ first (rest s handle))
        × (rest (calls.find_next s handle).1 handle ≡ others (rest s handle))

-- The names that the iterator stands at, and `behind` it.
abbrev pub Stands : Iterator → List (List ℕ) → List (List ℕ) → Type 0
Stands it behind [] = it.at_end ≡ true
Stands it behind (x ∷ xs) = (it.at_end ≡ false) × (it.cur_ent ≡ x) × (behind ≡ xs)

module _ {S : Type 0} (calls : DirCalls S) where
  -- Advanced again and again, the iterator shows these names, and is then at the end.
  abbrev pub Shows : ℕ → List (List ℕ) → Iterator → S → Type 0
  Shows fuel [] it s = it.at_end ≡ true
  Shows fuel (name ∷ names) it s =
      (it.at_end ≡ false)
      × (it.cur_ent ≡ name)
      × ((it' : Iterator) × (s' : S) × (advance calls fuel it s ≡ returns (it', s'))
          × Shows fuel names it' s')

module _ {S : Type 0} (calls : DirCalls S) (finds : Finds calls) where
  abbrev Comes : ℕ → ℕ → List (List ℕ) → Iterator → S → Type 0
  Comes fuel handle all it s =
      (it' : Iterator) × (t : S) × (next_loop calls fuel handle it s ≡ returns (it', t))
      × Stands it' (visible (finds.rest t handle)) (visible all)
      × (length (finds.rest t handle) ≤ length all)
      × (it'.dir_handle ≡ it.dir_handle)

  next_loop-Comes :
      (fuel handle : ℕ) (all : List (List ℕ)) (it : Iterator) (s : S)
      → finds.rest s handle ≡ all
      → length all < fuel
      → Comes fuel handle all it s
  unfolding next_loop visible
  next_loop-Comes zero handle all it s e f = absurd (omega arith)
  next_loop-Comes (suc fuel) handle [] it s e f =
      let r = finds.next_lem s handle in
      let none_left : (calls.find_next s handle).0 ≡ none = r.0 ∙ ap first e in
      (
        record it { at_end = true },
        (calls.find_next s handle).1,
        rw (next_loop, none_left) refl,
        refl,
        rw (r.1, e) (omega arith),
        refl,
      )
  next_loop-Comes (suc fuel) handle (x ∷ xs) it s e f =
      let r = finds.next_lem s handle in
      let is : (calls.find_next s handle).0 ≡ some x = r.0 ∙ ap first e in
      let left : finds.rest (calls.find_next s handle).1 handle ≡ xs = r.1 ∙ ap others e in
      let here : Iterator = record it { at_end = false; cur_ent = x } in
      elim (Bool-cases (is_dot x)) [
        | inl dot ↦
            let (it', t, found, stands, fewer, same) =
              next_loop-Comes fuel handle xs here (calls.find_next s handle).1 left (omega arith) in
            (it', t, rw (next_loop, is, dot, found) refl, rw dot stands, omega arith, same)
        | inr plain ↦ (
          here,
          (calls.find_next s handle).1,
          rw (next_loop, is, plain) refl,
          rw plain (refl, refl, ap visible left),
          rw left (omega arith),
          refl,
        )
      ]

  advance-next_loop :
      (fuel handle : ℕ) (it : Iterator) (s : S)
      → it.at_end ≡ false
      → it.dir_handle ≡ some handle
      → advance calls fuel it s ≡ next_loop calls fuel handle it s
  unfolding advance next
  advance-next_loop fuel handle it s on has_handle = simp (on, has_handle, advance, next)

  shown :
      (fuel handle : ℕ) (names : List (List ℕ)) (it : Iterator) (s : S)
      → it.dir_handle ≡ some handle
      → Stands it (visible (finds.rest s handle)) names
      → length (finds.rest s handle) < fuel
      → Shows calls fuel names it s
  unfolding advance next
  shown fuel handle [] it s open_handle stands f = stands
  shown fuel handle (x ∷ xs) it s open_handle (on, is, behind) f =
      let (it', t, found, stands, fewer, same) =
        next_loop-Comes fuel handle (finds.rest s handle) it s refl f in
      (
        on,
        is,
        (
          it',
          t,
          advance-next_loop fuel handle it s on open_handle ∙ found,
          shown fuel handle xs it' t (same ∙ open_handle)
              (subst (Stands it' (visible (finds.rest t handle))) behind stands) (omega arith),
        ),
      )

  -- An iterator of a directory on Windows whose address has no handle yet, for a path whose search gives
  -- a first name: it ends, and shows the entries but for "." and "..", in order.
  pub open_first-visible :
      (fuel address handle : ℕ) (dir : Directory) (pattern name : List ℕ) (s t : S)
      → pattern_of dir.dir_path ≡ returns pattern
      → calls.find_first s pattern ≡ (some (handle, name), t)
      → length (finds.rest t handle) < fuel
      → (it : Iterator) × (dir' : Directory) × (s' : S) × (open_first calls fuel address dir s
          ≡ returns (it, dir', s'))
        × Shows calls fuel (visible (name ∷ finds.rest t handle)) it s'
  unfolding open_first opened visible
  open_first-visible fuel address handle dir pattern name s t path found f =
      let dir' : Directory = record dir {
        dir_handles = (address, some handle) ∷ dir.dir_handles;
      } in
      let it : Iterator = record { dir_handle = some handle; at_end = false; cur_ent = name } in
      elim (Bool-cases (is_dot name)) [
        | inl dot ↦
            let (it', u, came, stands, fewer, same) =
              next_loop-Comes fuel handle (finds.rest t handle) it t refl f in
            (
              it',
              dir',
              u,
              rw (path, found, opened, dot, came) refl,
              rw dot (
                  shown fuel handle (visible (finds.rest t handle)) it' u same stands
                    (omega arith)),
            )
        | inr plain ↦ (
          it,
          dir',
          t,
          rw (path, found, opened, plain) refl,
          rw plain (
              shown fuel handle (name ∷ visible (finds.rest t handle)) it t refl (refl, refl, refl)
                f),
        )
      ]
