-- ===== src/Commands/Answers.antt =====
-- What a call to the database answers, by cases on its fault.
use shared_dev_context_layer.Base.{ℕ, String, ◌≡◌, ◌≢◌, refl, arith}
use shared_dev_context_layer.Commands.Session.{
  Result, threw, Call, Write, Turn, Fault, works, fails, unanswered, Session, enter, answer_with,
  call, write_with, wrote, write,
}

-- A call works, or throws and has or has not changed the tables.
fault_cases :
    {A : Type 0} (fault : Fault) (op : Call A) (turn : Turn) (s : Session)
    (Q : Result A × Session → Type 0)
    → (fault ≡ works → Q ((op turn s.tables).1, record s { tables = (op turn s.tables).0 }))
    → ((e : String) → fault ≢ works → Q (threw e, s))
    → ((e : String) → fault ≢ works → Q (threw e, record s { tables = (op turn s.tables).0 }))
    → Q (answer_with fault op turn s)
fault_cases works op turn s Q done failed lost = done refl
fault_cases (fails e) op turn s Q done failed lost = failed e (λ h. ground (h, arith))
fault_cases (unanswered e) op turn s Q done failed lost = lost e (λ h. ground (h, arith))

pub call_cases :
    {A : Type 0} (turns : ℕ → Turn) (op : Call A) (s : Session) (Q : Result A × Session → Type 0)
    → let turn = turns s.calls in
      let u = enter turn s in
      (turn.fault ≡ works → Q ((op turn u.tables).1, record u { tables = (op turn u.tables).0 }))
      → ((e : String) → turn.fault ≢ works → Q (threw e, u))
      → ((e : String)
          → turn.fault ≢ works
          → Q (threw e, record u { tables = (op turn u.tables).0 }))
      → Q (call turns op s)
unfolding call
call_cases turns op s Q =
    let turn = turns s.calls in fault_cases turn.fault op turn (enter turn s) Q

answered :
    {A : Type 0} (fault : Fault) (op : Call A) (turn : Turn) (s : Session)
    (Q : Result A × Session → Type 0)
    → fault ≡ works
    → Q ((op turn s.tables).1, record s { tables = (op turn s.tables).0 })
    → Q (answer_with fault op turn s)
answered fault op turn s Q e h = rw e h

pub call_works :
    {A : Type 0} (turns : ℕ → Turn) (op : Call A) (s : Session) (Q : Result A × Session → Type 0)
    → let turn = turns s.calls in
      let u = enter turn s in
      turn.fault ≡ works
      → Q ((op turn u.tables).1, record u { tables = (op turn u.tables).0 })
      → Q (call turns op s)
unfolding call
call_works turns op s Q = let turn = turns s.calls in answered turn.fault op turn (enter turn s) Q

written :
    (fault : Fault) (op : Write) (id : String) (s : Session) (Q : Result String × Session → Type 0)
    → fault ≡ works
    → Q (wrote (op id s.records) s)
    → Q (write_with fault op id s)
written fault op id s Q e h = rw e h

pub write_works :
    (turns : ℕ → Turn) (op : Write) (s : Session) (Q : Result String × Session → Type 0)
    → let turn = turns s.calls in
      let u = enter turn s in
      turn.fault ≡ works → Q (wrote (op turn.fresh_id u.records) u) → Q (write turns op s)
unfolding write
write_works turns op s Q =
    let turn = turns s.calls in written turn.fault op turn.fresh_id (enter turn s) Q
