-- ===== src/MemoryStream/In/Contract.antt =====
-- `MemoryInStream` keeps the contract of an input stream.
use ckcore.Base.{
  ℕ, ◌+◌, ◌^◌, ◌≤◌, ◌<◌, ◌≡◌, sym, ap, ◌∙◌, ◌↔◌, true, Option, some, List, [], ◌++◌, returns, take,
  length-take, take-append-drop, arith,
}
use ckcore.Stream.Contract.{Source, Delivers}
use ckcore.MemoryStream.In.{MemoryIn, memory}
use ckcore.MemoryStream.In.Read.{IsValid, rest, read-rest, end-rest}

-- The contract of an input stream, for reads of up to `limit` bytes.
abbrev pub IsOk : ℕ → MemoryIn → Type 0
IsOk limit m = IsValid m × (m.count + limit < 2 ^ 32)

pub read-Delivers :
    (limit : ℕ) (m : MemoryIn) (n : ℕ)
    → IsOk limit m
    → 0 < n
    → n ≤ limit
    → (r : Option (List ℕ)) × (m' : MemoryIn) × (memory.read m n ≡ returns (r, m'))
      × IsOk limit m'
      × Delivers ⊥ n (rest m) r (rest m')
unfolding memory
read-Delivers limit m n (v, room) pos few =
    let (m', e, v', left, same) = read-rest m n v (omega (arith, v)) in
    (
      some (take n (rest m)),
      m',
      e,
      (v', omega (arith, same)),
      (
        sym (take-append-drop n (rest m)) ∙ ap (λ l. take n (rest m) ++ l) (sym left),
        omega (arith, length-take n (rest m)),
        λ some_left. omega (arith, length-take n (rest m)),
      ),
    )

pub end-IsOk : (limit : ℕ) (m : MemoryIn) → IsOk limit m → (memory.end m ≡ true) ↔ (rest m ≡ [])
unfolding memory
end-IsOk limit m (v, room) = end-rest m v

abbrev pub memory_source : ℕ → Source memory
memory_source limit = record {
  Ok = IsOk limit;
  Failing = λ _. ⊥;
  rest = rest;
  limit = limit;
  end_lem = end-IsOk limit;
  read_lem = read-Delivers limit;
}
