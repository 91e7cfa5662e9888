-- ===== src/Commands/Keeps.antt =====
-- What pieces of a command keep true of the session: the rules by which a predicate passes through
-- sequences, calls, writes and handlers.
use shared_dev_context_layer.Base.{ℕ, Bool, true, false, String, Option, none, some, if◌then◌else◌}
use shared_dev_context_layer.Persistence.Records.{Records, or_unchanged}
use shared_dev_context_layer.Commands.Session.{
  Result, value, threw, Action, Call, Write, continue, ◌>>=◌, ◌>>◌, catching, Turn, Fault, works,
  fails, unanswered, Session, enter, answer_with, call, write_with, wrote, write, recover,
}

-- `I` holds in the session that is left, whether or not the action throws.
abbrev pub Keeps : {A : Type 0} → (Session → Type 0) → Action A → Type 0
Keeps I m = (s : Session) → I s → I (m s).1

module _ (I : Session → Type 0) where
  pub continue-Keeps :
      {A B : Type 0} (f : A → Action B) (r : Result A × Session)
      → ((a : A) → Keeps I (f a))
      → I r.1
      → I (continue f r).1
  continue-Keeps f (value a, s) keeps i = keeps a s i
  continue-Keeps f (threw e, s) keeps i = i

  pub bind-Keeps :
      {A B : Type 0} (m : Action A) (f : A → Action B)
      → Keeps I m
      → ((a : A) → Keeps I (f a))
      → Keeps I (m >>= f)
  bind-Keeps m f first keeps s i = continue-Keeps f (m s) keeps (first s i)

  pub then-Keeps :
      {A B : Type 0} (m : Action A) (k : Action B) → Keeps I m → Keeps I k → Keeps I (m >> k)
  then-Keeps m k first second = bind-Keeps m (λ _. k) first (λ _. second)

  pub recover-Keeps :
      {A : Type 0} (handler : String → Action A) (r : Result A × Session)
      → ((e : String) → Keeps I (handler e))
      → I r.1
      → I (recover handler r).1
  recover-Keeps handler (value a, s) keeps i = i
  recover-Keeps handler (threw e, s) keeps i = keeps e s i

  pub catching-Keeps :
      {A : Type 0} (m : Action A) (handler : String → Action A)
      → Keeps I m
      → ((e : String) → Keeps I (handler e))
      → Keeps I (catching m handler)
  catching-Keeps m handler first keeps s i = recover-Keeps handler (m s) keeps (first s i)

  pub if-Keeps :
      {A : Type 0} (b : Bool) (m k : Action A)
      → Keeps I m
      → Keeps I k
      → Keeps I (if b then m else k)
  if-Keeps true m k first second = first
  if-Keeps false m k first second = second

  answer_with-Keeps :
      {A : Type 0} (fault : Fault) (op : Call A) (turn : Turn) (s : Session)
      → I s
      → I (record s { tables = (op turn s.tables).0 })
      → I (answer_with fault op turn s).1
  answer_with-Keeps works op turn s before after = after
  answer_with-Keeps (fails e) op turn s before after = before
  answer_with-Keeps (unanswered e) op turn s before after = after

  wrote-Keeps :
      (o : Option (Records × String)) (s : Session)
      → I s
      → I (record s { records = or_unchanged s.records o })
      → I (wrote o s).1
  wrote-Keeps none s before after = before
  wrote-Keeps (some (records, row)) s before after = after

  write_with-Keeps :
      (fault : Fault) (op : Write) (id : String) (s : Session)
      → I s
      → I (record s { records = or_unchanged s.records (op id s.records) })
      → I (write_with fault op id s).1
  write_with-Keeps works op id s before after = wrote-Keeps (op id s.records) s before after
  write_with-Keeps (fails e) op id s before after = before
  write_with-Keeps (unanswered e) op id s before after = after

  module _ (turns : ℕ → Turn) where
    -- What the others do between two calls keeps `I`.
    abbrev pub Enters : Type 0
    Enters = (s : Session) → I s → I (enter (turns s.calls) s)

    pub call-Keeps :
        {A : Type 0} (op : Call A)
        → Enters
        → ((turn : Turn) (s : Session) → I s → I (record s { tables = (op turn s.tables).0 }))
        → Keeps I (call turns op)
    unfolding call
    call-Keeps op enters keeps s i =
        let turn = turns s.calls in
        answer_with-Keeps turn.fault op turn (enter turn s) (enters s i)
          (keeps turn (enter turn s) (enters s i))

    pub write-Keeps :
        (op : Write)
        → Enters
        → ((id : String) (s : Session)
            → I s
            → I (record s { records = or_unchanged s.records (op id s.records) }))
        → Keeps I (write turns op)
    unfolding write
    write-Keeps op enters keeps s i =
        let turn = turns s.calls in
        write_with-Keeps turn.fault op turn.fresh_id (enter turn s) (enters s i)
          (keeps turn.fresh_id (enter turn s) (enters s i))
