-- ===== src/Commands/Closed/Triples.antt =====
-- Actions that end in a postcondition on the records, where they do not throw.
use shared_dev_context_layer.Base.{ℕ, String, Option, none, some}
use shared_dev_context_layer.Persistence.Records.{Records}
use shared_dev_context_layer.Commands.Session.{
  Result, value, threw, Action, continue, ◌>>=◌, from_result, Turn, Session, Fault, works, fails,
  unanswered, Write, write_with, wrote, write, call, answer_with, enter,
}

abbrev pub OnValue : {A : Type 0} → (A → Records → Type 0) → Result A × Session → Type 0
OnValue Q (value a, s) = Q a s.records
OnValue Q (threw e, s) = Unit

abbrev pub Triple : {A : Type 0} → (Records → Type 0) → Action A → (A → Records → Type 0) → Type 0
Triple P m Q = (s : Session) → P s.records → OnValue Q (m s)

pub continue-Triple :
    {A B : Type 0} (Q : A → Records → Type 0) (R : B → Records → Type 0) (f : A → Action B)
    (x : Result A × Session)
    → OnValue Q x
    → ((a : A) → Triple (Q a) (f a) R)
    → OnValue R (continue f x)
continue-Triple Q R f (value a, s) first second = second a s first
continue-Triple Q R f (threw e, s) first second = tt

pub bind-Triple :
    {A B : Type 0} (P : Records → Type 0) (Q : A → Records → Type 0) (R : B → Records → Type 0)
    (m : Action A) (f : A → Action B)
    → Triple P m Q
    → ((a : A) → Triple (Q a) (f a) R)
    → Triple P (m >>= f) R
bind-Triple P Q R m f first second s p = continue-Triple Q R f (m s) (first s p) second

pub from_result-Triple :
    {A : Type 0} (P : Records → Type 0) (r : Result A) → Triple P (from_result r) (λ _. P)
from_result-Triple P (value a) s p = p
from_result-Triple P (threw e) s p = tt

-- What a write leaves, where the database accepts it.
abbrev pub OnSome : (String → Records → Type 0) → Option (Records × String) → Type 0
OnSome Q none = Unit
OnSome Q (some (records, id)) = Q id records

wrote-Triple :
    (Q : String → Records → Type 0) (o : Option (Records × String)) (s : Session)
    → OnSome Q o
    → OnValue Q (wrote o s)
wrote-Triple Q none s h = tt
wrote-Triple Q (some (records, id)) s h = h

write_with-Triple :
    (Q : String → Records → Type 0) (fault : Fault) (op : Write) (id : String) (s : Session)
    → OnSome Q (op id s.records)
    → OnValue Q (write_with fault op id s)
write_with-Triple Q works op id s h = wrote-Triple Q (op id s.records) s h
write_with-Triple Q (fails e) op id s h = tt
write_with-Triple Q (unanswered e) op id s h = tt

pub write-Triple :
    (turns : ℕ → Turn) (P : Records → Type 0) (Q : String → Records → Type 0) (op : Write)
    → ((id : String) (r : Records) → P r → OnSome Q (op id r))
    → Triple P (write turns op) Q
unfolding write
write-Triple turns P Q op h s p =
    let turn = turns s.calls in
    write_with-Triple Q turn.fault op turn.fresh_id (enter turn s) (h turn.fresh_id s.records p)

answered-Triple :
    (P : Records → Type 0) (fault : Fault) (turn : Turn) (s : Session)
    → P s.records
    → OnValue (λ (_ : Unit). P) (answer_with fault (λ turn t. (t, value tt)) turn s)
answered-Triple P works turn s p = p
answered-Triple P (fails e) turn s p = tt
answered-Triple P (unanswered e) turn s p = tt

-- A statement that leaves the tables as they are.
pub call-Triple :
    (turns : ℕ → Turn) (P : Records → Type 0)
    → Triple P (call turns (λ turn t. (t, value tt))) (λ (_ : Unit). P)
unfolding call
call-Triple turns P s p =
    let turn = turns s.calls in answered-Triple P turn.fault turn (enter turn s) p
