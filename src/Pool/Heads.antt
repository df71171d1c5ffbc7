-- ===== src/Pool/Heads.antt =====
-- The heads that a pool delivers: `poll` of pool/pool.go and the receiver of its channel.
use stateless_executor.Prelude.{
  ℕ, suc, ◌≤◌, ◌<◌, ◌≡◌, refl, List, [], ◌∷◌, ◌++◌, foldl, length, length-append, ltb, ltb→lt,
  arith, append_assoc, Bool-cases, inl, inr,
}
use stateless_executor.Prelude.Errors.{Result, ok, err, panic}
use stateless_executor.Prelude.Text.{Text, text_eq}
use stateless_executor.Pool.{Pool, fresh, heads_capacity, next, offer, saw, poll}

-- A tick of the poller, with what the nodes answer then, or a receive from the channel.
pub data Event : Type 0 where
  ticked : (Text → Result ℕ) → Event
  received : Event

-- The pool and the heads that its receiver has taken.
pub record Run : Type 0 where
  pub taken : List ℕ
  pub pool : Pool

-- A receive from an empty channel waits: nothing happens.
abbrev pub take_head : Run → List ℕ → Run
take_head r [] = r
take_head r (n ∷ ns) = record { taken = r.taken ++ (n ∷ []); pool = record r.pool { heads = ns } }

abbrev pub act : Run → Event → Run
act r (Event.ticked answer) = record { taken = r.taken; pool = poll answer r.pool }
act r Event.received = take_head r r.pool.heads

abbrev pub start : List Text → Run
start nodes = record { taken = []; pool = fresh nodes }

-- Strictly ascending, all above `low` and at most `high`.
abbrev pub IsRising : ℕ → List ℕ → ℕ → Type 0
IsRising low [] high = low ≤ high
IsRising low (n ∷ ns) high = (low < n) × IsRising n ns high

IsRising-weaken :
    (low : ℕ) (ns : List ℕ) (high high' : ℕ)
    → high ≤ high'
    → IsRising low ns high
    → IsRising low ns high'
IsRising-weaken low [] high high' h r = omega arith
IsRising-weaken low (n ∷ ns) high high' h (a, r) = (a, IsRising-weaken n ns high high' h r)

IsRising-snoc :
    (low : ℕ) (ns : List ℕ) (high n : ℕ)
    → high < n
    → IsRising low ns high
    → IsRising low (ns ++ (n ∷ [])) n
IsRising-snoc low [] high n h r = (omega arith, omega arith)
IsRising-snoc low (m ∷ ns) high n h (a, r) = (a, IsRising-snoc m ns high n h r)

-- What holds of a run at all times.
abbrev pub IsOrderly : Run → Type 0
IsOrderly r =
    IsRising 0 (r.taken ++ r.pool.heads) r.pool.seen × (length r.pool.heads ≤ heads_capacity)

abbrev holding : List ℕ → Pool → Run
holding taken p = record { taken = taken; pool = p }

offer-IsRising :
    (low : ℕ) (taken heads : List ℕ) (high n : ℕ)
    → high < n
    → IsRising low (taken ++ heads) high
    → length heads ≤ heads_capacity
    → IsRising low (taken ++ offer n heads) n × (length (offer n heads) ≤ heads_capacity)
unfolding offer
offer-IsRising low taken heads high n h r k =
    elim (Bool-cases (ltb (length heads) heads_capacity)) [
      | inl room ↦
          let room' = ltb→lt (length heads) heads_capacity room in
          rw room (
            rw append_assoc at (IsRising-snoc low (taken ++ heads) high n h r),
            omega (arith, length-append heads (n ∷ [])),
          )
      | inr full ↦ rw full (IsRising-weaken low (taken ++ heads) high n (omega arith) r, k)
    ]

saw-IsOrderly :
    (taken : List ℕ) (p : Pool) (n : ℕ)
    → IsOrderly (holding taken p)
    → IsOrderly (holding taken (saw p n))
unfolding saw
saw-IsOrderly taken p n (r, k) = elim (Bool-cases (ltb p.seen n)) [
  | inl newer ↦ rw newer (offer-IsRising 0 taken p.heads p.seen n (ltb→lt p.seen n newer) r k)
  | inr older ↦ rw older (r, k)
]

next_keeps : (p : Pool) → ((next p).1.heads ≡ p.heads) × ((next p).1.seen ≡ p.seen)
unfolding next
next_keeps p = ground arith

next-IsOrderly :
    (taken : List ℕ) (p : Pool) → IsOrderly (holding taken p) → IsOrderly (holding taken (next p).1)
next-IsOrderly taken p v = let (a, b) = next_keeps p in rw (a, b) v

poll-IsOrderly :
    (taken : List ℕ) (answer : Text → Result ℕ) (p : Pool)
    → IsOrderly (holding taken p)
    → IsOrderly (holding taken (poll answer p))
unfolding poll
poll-IsOrderly taken answer p v = elim (Bool-cases (text_eq (next p).0 [])) [
  | inl nobody ↦ rw nobody (next-IsOrderly taken p v)
  | inr somebody ↦ rw somebody (answered (answer (next p).0))
]
  where
    answered :
        (a : Result ℕ)
        → IsOrderly (holding taken (elim a [ ok num ↦ saw (next p).1 num | _ ↦ (next p).1 ]))
    answered (ok num) = saw-IsOrderly taken (next p).1 num (next-IsOrderly taken p v)
    answered (err e) = next-IsOrderly taken p v
    answered panic = next-IsOrderly taken p v

take_head-IsOrderly :
    (r : Run) (ns : List ℕ) → r.pool.heads ≡ ns → IsOrderly r → IsOrderly (take_head r ns)
take_head-IsOrderly r [] e v = v
take_head-IsOrderly r (n ∷ ns) e (a, k) =
    (rw (append_assoc r.taken (n ∷ []) ns) (rw e at a), shorter (rw e at k))
  where
    shorter : suc (length ns) ≤ heads_capacity → length ns ≤ heads_capacity
    shorter h = omega arith

-- Every event keeps the run orderly.
act-IsOrderly : (r : Run) (e : Event) → IsOrderly r → IsOrderly (act r e)
act-IsOrderly r (Event.ticked answer) v = poll-IsOrderly r.taken answer r.pool v
act-IsOrderly r Event.received v = take_head-IsOrderly r r.pool.heads refl v

acts-IsOrderly : (events : List Event) (r : Run) → IsOrderly r → IsOrderly (foldl act r events)
acts-IsOrderly [] r v = v
acts-IsOrderly (e ∷ events) r v = acts-IsOrderly events (act r e) (act-IsOrderly r e v)

-- From a fresh pool on, whatever the nodes answer and whenever heads are received: the heads that
-- were received and those in the channel strictly ascend, no head is above the newest that was
-- seen, and the channel holds at most 32.
pub start-IsOrderly :
    (nodes : List Text) (events : List Event) → IsOrderly (foldl act (start nodes) events)
start-IsOrderly nodes events = acts-IsOrderly events (start nodes) (omega arith, omega arith)
