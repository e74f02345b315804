-- ===== src/Directory/Entries.antt =====
-- The iterator of a directory shows its entries but for `.` and `..`.
use ckcore.Base.{
  ℕ, zero, suc, ◌<◌, ◌≤◌, ◌≡◌, ◌⊎◌, ◌==◌, refl, sym, ap, ◌∙◌, true, Option, none, some, List, [],
  ◌∷◌, returns, if◌then◌else◌, length, arith, Bool-cases, inl, inr,
}
use mathlib.Core.Path.{subst}
use ckcore.Directory.{
  DirCalls, Directory, Iterator, is_dot, handle_of, next_loop, next, advance, begin,
}

-- The entries that are shown.
unfoldable pub visible : List (List ℕ) → List (List ℕ)
visible [] = []
visible (x ∷ xs) = let rest = visible xs in if is_dot x then rest else x ∷ rest

-- The first of a list, or `none`, and the others.
abbrev pub first : List (List ℕ) → Option (List ℕ)
first [] = none
first (x ∷ xs) = some x

abbrev pub others : List (List ℕ) → List (List ℕ)
others [] = []
others (x ∷ xs) = xs

-- What readdir(3) does: a handle has entries to come, and a call gives the next one.
pub record Reads {S : Type 0} (calls : DirCalls S) : Type 0 where
  pub rest : S → ℕ → List (List ℕ)
  pub reads_lem :
      (s : S) (handle : ℕ)
      → ((calls.readdir s handle).0 ≡ first (rest s handle))
        × (rest (calls.readdir s handle).1 handle ≡ others (rest s handle))

-- An entry and those behind it make a list; there is no entry where the list is empty.
abbrev pub Stands : Option (List ℕ) → List (List ℕ) → List (List ℕ) → Type 0
Stands none behind all = all ≡ []
Stands (some name) behind all = all ≡ name ∷ behind

module _ {S : Type 0} (calls : DirCalls S) where
  -- Advanced again and again, the iterator shows these names, and is then at the end.
  abbrev pub Shows : ℕ → List (List ℕ) → Iterator → S → Type 0
  Shows fuel [] it s = it.cur_ent ≡ none
  Shows fuel (name ∷ names) it s =
      (it.cur_ent ≡ some name)
      × ((it' : Iterator) × (s' : S) × (advance calls fuel it s ≡ returns (it', s'))
          × Shows fuel names it' s')

module _ {S : Type 0} (calls : DirCalls S) (reads : Reads calls) where
  -- What a search for the next entry comes to.
  abbrev Finds : ℕ → ℕ → List (List ℕ) → S → Type 0
  Finds fuel handle all s =
      (entry : Option (List ℕ)) × (t : S) × (next_loop calls fuel handle s ≡ returns (entry, t))
      × Stands entry (visible (reads.rest t handle)) (visible all)
      × (length (reads.rest t handle) ≤ length all)

  next_loop-Finds :
      (fuel handle : ℕ) (all : List (List ℕ)) (s : S)
      → reads.rest s handle ≡ all
      → length all < fuel
      → Finds fuel handle all s
  unfolding next_loop visible
  next_loop-Finds zero handle all s e f = absurd (omega arith)
  next_loop-Finds (suc fuel) handle [] s e f =
      let r = reads.reads_lem s handle in
      let none_left : (calls.readdir s handle).0 ≡ none = r.0 ∙ ap first e in
      (
        none,
        (calls.readdir s handle).1,
        rw (next_loop, none_left) refl,
        refl,
        rw (r.1, e) (omega arith),
      )
  next_loop-Finds (suc fuel) handle (x ∷ xs) s e f =
      let r = reads.reads_lem s handle in
      let is : (calls.readdir s handle).0 ≡ some x = r.0 ∙ ap first e in
      let left : reads.rest (calls.readdir s handle).1 handle ≡ xs = r.1 ∙ ap others e in
      elim (Bool-cases (is_dot x)) [
        | inl dot ↦
            let (entry, t, found, stands, fewer) =
              next_loop-Finds fuel handle xs (calls.readdir s handle).1 left (omega arith) in
            (entry, t, rw (next_loop, is, dot, found) refl, rw dot stands, omega arith)
        | inr plain ↦ (
          some x,
          (calls.readdir s handle).1,
          rw (next_loop, is, plain) refl,
          rw (plain, left) refl,
          rw left (omega arith),
        )
      ]

  shown :
      (fuel handle : ℕ) (names : List (List ℕ)) (entry : Option (List ℕ)) (s : S)
      → Stands entry (visible (reads.rest s handle)) names
      → length (reads.rest s handle) < fuel
      → Shows calls fuel names (record { dir_handle = some handle; cur_ent = entry }) s
  unfolding advance next
  shown fuel handle [] none s stands f = refl
  shown fuel handle [] (some name) s stands f = cc
  shown fuel handle (x ∷ xs) none s stands f = cc
  shown fuel handle (x ∷ xs) (some name) s stands f =
      let (entry, t, found, stands', fewer) =
        next_loop-Finds fuel handle (reads.rest s handle) s refl f in
      (
        sym (ap first stands),
        (
          record { dir_handle = some handle; cur_ent = entry },
          t,
          rw found refl,
          shown fuel handle xs entry t
              (subst (Stands entry (visible (reads.rest t handle))) (sym (ap others stands))
                stands')
              (omega arith),
        ),
      )

  -- The handle of an iterator at this address: one that is opened, or the one that an iterator at this
  -- address has opened before.
  abbrev pub Takes : ℕ → Directory → S → ℕ → S → Type 0
  Takes address dir s handle t =
      ((handle_of address dir.dir_handles ≡ none)
        × (calls.opendir s dir.dir_path ≡ (some handle, t)))
      ⊎ ((handle_of address dir.dir_handles ≡ some (some handle)) × (s ≡ t))

  next-Shows :
      (fuel handle : ℕ) (s : S)
      → length (reads.rest s handle) < fuel
      → (it : Iterator) × (t : S) × (next calls fuel
            (record { dir_handle = some handle; cur_ent = none })
            s
          ≡ returns (it, t))
        × Shows calls fuel (visible (reads.rest s handle)) it t
  unfolding next
  next-Shows fuel handle s f =
      let (entry, t, found, stands, fewer) =
        next_loop-Finds fuel handle (reads.rest s handle) s refl f in
      (
        record { dir_handle = some handle; cur_ent = entry },
        t,
        rw found refl,
        shown fuel handle (visible (reads.rest s handle)) entry t stands (omega arith),
      )

  -- The iterator of `Directory::begin` ends, and shows the entries, but for "." and "..", that its
  -- handle has still to come, in order: all of them where the handle is new, and only those that are
  -- left where an earlier iterator at the same address has opened it.
  pub begin-visible :
      (fuel address handle : ℕ) (dir : Directory) (s t : S)
      → Takes address dir s handle t
      → length (reads.rest t handle) < fuel
      → (it : Iterator) × (dir' : Directory) × (s' : S) × (begin calls fuel address dir s
          ≡ returns (it, dir', s'))
        × Shows calls fuel (visible (reads.rest t handle)) it s'
        × (handle_of address dir'.dir_handles ≡ some (some handle))
  unfolding begin handle_of
  begin-visible fuel address handle dir s t (inl (new, opened)) f =
      let (it, s', is, shows) = next-Shows fuel handle t f in
      let same : (address == address) ≡ true = ground arith in
      (
        it,
        record dir { dir_handles = (address, some handle) ∷ dir.dir_handles },
        s',
        rw (new, begin, opened, is) refl,
        shows,
        rw same refl,
      )
  begin-visible fuel address handle dir s t (inr (old, same)) f =
      let (it, s', is, shows) = next-Shows fuel handle t f in
      (it, dir, s', rw (old, begin, same, is) refl, shows, old)
