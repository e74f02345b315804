-- ===== src/Process/Ending.antt =====
-- That the thread of `Process::listen` ends, and what it has reported by then.
use ckcore.Base.{
  ℕ, ◌≡◌, refl, Bool, true, false, Option, none, some, List, [], ◌∷◌, ◌++◌, returns, Bool-cases,
  inl, inr,
}
use ckcore.Files.{Sys}
use ckcore.Process.{no_pipe, Process, is_running, Status, exited, signaled, ended, Calls, close}
use ckcore.Process.Reports.{
  Keeps, Heeds, Selects, Blocks-nil, Blocks-append, arrive-Keeps, listen_round-Heeds,
}
use ckcore.Process.Listening.{Heard, listen_round, arrive, listen_loop}

-- The child ends before one of the tests of the state.
pub data Ends : List (Option Status) → Type 0 where
  now : {status : Status} {signals : List (Option Status)} → Ends (some status ∷ signals)
  later :
      {signal : Option Status} {signals : List (Option Status)}
      → Ends signals
      → Ends (signal ∷ signals)

-- What `close` leaves.
abbrev pub IsClosed : Process → Type 0
IsClosed p =
    (is_running p ≡ false)
    × (p.pid ≡ none)
    × (p.started_event ≡ false)
    × (p.pipe_stdin ≡ no_pipe)
    × (p.pipe_stdout ≡ no_pipe)
    × (p.pipe_stderr ≡ no_pipe)

pub close-IsClosed : {S : Type 0} (sys : Sys S) (p : Process) (s : S) → IsClosed (close sys p s).0
unfolding close is_running
close-IsClosed sys p s = (refl, refl, refl, refl, refl, refl)

ended-stopped : (status : Status) (p : Process) → is_running (ended status p) ≡ false
unfolding ended is_running
ended-stopped (exited code) p = refl
ended-stopped signaled p = refl

module _ (delims : List ℕ) (invalid : Bool) where
  module _ {S : Type 0} (sys : Sys S) (calls : Calls S) where
    -- What the loop comes to from `p` on.
    abbrev Returns : List (Option Status) → ℕ → Process → S → Type 0
    Returns signals tries p s =
        (h : Heard S) × (listen_loop sys calls signals tries p s ≡ returns h)
        × Heeds delims invalid sys calls h

    loop_stops :
        (signal : Option Status) (signals : List (Option Status)) (tries : ℕ) (p : Process) (s : S)
        → is_running (arrive signal p) ≡ false
        → Keeps delims invalid p
        → Returns (signal ∷ signals) tries p s
    unfolding listen_loop
    loop_stops signal signals tries p s e k = (
      record { goes_on = false; process = arrive signal p; system = s; events = [] },
      rw (e, listen_loop) refl,
      (arrive-Keeps delims invalid signal p k, Blocks-nil delims invalid),
    )

    loop_goes :
        (signal : Option Status) (signals : List (Option Status)) (tries : ℕ) (p : Process) (s : S)
        → is_running (arrive signal p) ≡ true
        → ((q : Process) (t : S) → Keeps delims invalid q → Returns signals tries q t)
        → (h : Heard S) × (listen_round sys calls tries (arrive signal p) s ≡ returns h)
          × Heeds delims invalid sys calls h
        → Returns (signal ∷ signals) tries p s
    unfolding listen_loop
    loop_goes signal signals tries p s e more (h, is, (k, blocks)) = elim (Bool-cases h.goes_on) [
      | inl on ↦ go on (more h.process h.system k)
      | inr off ↦ (h, simp (e, listen_loop, is, off), (k, blocks))
    ]
      where
        go :
            h.goes_on ≡ true
            → Returns signals tries h.process h.system
            → Returns (signal ∷ signals) tries p s
        go on (rest, is', (k', blocks')) = (
          record rest { events = h.events ++ rest.events },
          rw (e, listen_loop, is, on, is') refl,
          (k', Blocks-append delims invalid h.events rest.events blocks blocks'),
        )

    loop_next :
        (signal : Option Status) (signals : List (Option Status)) (tries : ℕ)
        → Selects calls tries
        → ((q : Process) (t : S) → Keeps delims invalid q → Returns signals tries q t)
        → (p : Process) (s : S) → Keeps delims invalid p
        → Returns (signal ∷ signals) tries p s
    loop_next signal signals tries selects more p s k =
        elim (Bool-cases (is_running (arrive signal p))) [
          | inl e ↦ loop_goes signal signals tries p s e more (
              listen_round-Heeds delims invalid sys calls tries (arrive signal p) s selects
                (arrive-Keeps delims invalid signal p k))
          | inr e ↦ loop_stops signal signals tries p s e k
        ]

    pub listen_loop-Heeds :
        (signals : List (Option Status)) (tries : ℕ)
        → Selects calls tries
        → Ends signals
        → (p : Process) (s : S) → Keeps delims invalid p
        → Returns signals tries p s
    listen_loop-Heeds [] tries selects ends = elim ends [ ]
    listen_loop-Heeds (some status ∷ signals) tries selects now = λ p s k.
        loop_stops (some status) signals tries p s (unfold arrive in ended-stopped status p) k
    listen_loop-Heeds (signal ∷ signals) tries selects (later ends) =
        loop_next signal signals tries selects (listen_loop-Heeds signals tries selects ends)
