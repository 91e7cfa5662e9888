-- ===== src/Persistence/Records/Sequence.antt =====
-- The events of an execution.
use shared_dev_context_layer.Base.{
  ℕ, zero, suc, ◌≤◌, ◌<◌, ◌≡◌, ◌≢◌, refl, sym, ◌∙◌, String, Bool, true, false, ◌||◌, Option, none,
  some, List, [], ◌∷◌, string_Eq, nat_eq, nat_eq_iff, any, drop, arith, Bool-cases, inl, inr,
  if◌then◌else◌, ap,
}
use shared_dev_context_layer.Base.Strings.{is_empty}
use shared_dev_context_layer.Persistence.Records.{
  Records, EventRow, SaveEventInput, SavedEvent, has_text, takes_number, takes_key, existing_event,
  max_seq, event_row, insert_event, with_events, or_unchanged, save_event_on, save_event,
  save_events,
}

-- How many events an execution has.
abbrev pub count_of : String → List EventRow → ℕ
count_of execution [] = 0
count_of execution (row ∷ rows) =
    let rest = count_of execution rows in
    if has_text execution row.execution_id then suc rest else rest

-- The events of an execution are numbered in their order, the first with 1; the newest stands first.
abbrev pub Numbered : String → List EventRow → Type 0
Numbered execution [] = Unit
Numbered execution (row ∷ rows) =
    (has_text execution row.execution_id ≡ true → row.seq_no ≡ some (suc (count_of execution rows)))
    × Numbered execution rows

module _ (execution : String) where
  max_seq-count :
      (rows : List EventRow)
      → Numbered execution rows
      → max_seq execution rows ≡ count_of execution rows
  unfolding max_seq
  max_seq-count [] h = refl
  max_seq-count (row ∷ rows) (h, old) = elim (Bool-cases (has_text execution row.execution_id)) [
    | inl e ↦ rw (e, h e, max_seq-count rows old) (omega arith)
    | inr e ↦ rw e (max_seq-count rows old)
  ]

  drop-Numbered :
      (n : ℕ) (rows : List EventRow) → Numbered execution rows → Numbered execution (drop n rows)
  drop-Numbered zero rows h = h
  drop-Numbered (suc n) [] h = tt
  drop-Numbered (suc n) (row ∷ rows) (_, old) = drop-Numbered n rows old

  count_of-drop :
      (n : ℕ) (rows : List EventRow) → count_of execution (drop n rows) ≤ count_of execution rows
  count_of-drop zero rows = omega arith
  count_of-drop (suc n) [] = omega arith
  count_of-drop (suc n) (row ∷ rows) = ground (arith, count_of-drop n rows)

  ne_of : (m n : ℕ) → nat_eq m n ≡ false → m ≢ n
  ne_of m n h e = ground (arith, nat_eq_iff m n)

  or_left : (a b c : Bool) → a ≡ true → ((a || b) || c) ≡ true
  or_left a b c h = ground arith

  or_right : (a c : Bool) → c ≡ true → (a || c) ≡ true
  or_right a c h = ground arith

  has_number :
      (new row : EventRow) (n : ℕ)
      → new.execution_id ≡ some execution
      → has_text execution row.execution_id ≡ true
      → new.seq_no ≡ some n
      → row.seq_no ≡ some n
      → takes_number new row ≡ true
  has_number new row n mine its number same = rw (mine, its, number, same) ((nat_eq_iff n n).1 refl)

  -- The numbers up to the count are taken.
  number_taken :
      (new : EventRow) (k : ℕ) (rows : List EventRow)
      → new.execution_id ≡ some execution
      → new.seq_no ≡ some (suc k)
      → Numbered execution rows
      → k < count_of execution rows
      → any (λ row. takes_number new row || takes_key new row) rows ≡ true
  number_taken new k [] mine number h few = absurd (omega arith)
  number_taken new k (row ∷ rows) mine number (h, old) few =
      let rest = any (λ row. takes_number new row || takes_key new row) rows in
      elim (Bool-cases (has_text execution row.execution_id)) [
        | inr e ↦
            or_right (takes_number new row || takes_key new row) rest
              (number_taken new k rows mine number old (rw e at few))
        | inl e ↦ elim (Bool-cases (nat_eq k (count_of execution rows))) [
          | inl last ↦ or_left (takes_number new row) (takes_key new row) rest (
              has_number new row (suc k) mine e number
                (h e ∙ ap (λ n. some (suc n)) (sym ((nat_eq_iff k _).0 last))))
          | inr earlier ↦ or_right (takes_number new row || takes_key new row) rest (
              number_taken new k rows mine number old
                (omega (arith, ne_of k _ earlier, rw e at few)))
        ]
      ]

  -- What goes through has the next number.
  insert_event-Numbered :
      (new : EventRow) (k : ℕ) (id : String) (records : Records)
      → (has_text execution new.execution_id ≡ true → new.seq_no ≡ some (suc k))
      → (has_text execution new.execution_id ≡ true → new.execution_id ≡ some execution)
      → k ≤ count_of execution records.events
      → Numbered execution records.events
      → Numbered execution
          (or_unchanged records (with_events id records (insert_event new records.events))).events
  unfolding insert_event
  insert_event-Numbered new k id records number mine few old =
      let taken = any (λ row. takes_number new row || takes_key new row) records.events in
      elim (Bool-cases taken) [
        | inl e ↦ rw e old
        | inr e ↦ rw e (λ its. number its ∙ ap (λ n. some (suc n)) (last its e), old)
      ]
    where
      not_both : (b : Bool) → b ≡ true → b ≢ false
      not_both b h e = ground arith

      last :
          has_text execution new.execution_id ≡ true
          → any (λ row. takes_number new row || takes_key new row) records.events ≡ false
          → k ≡ count_of execution records.events
      last its free = elim (Bool-cases (nat_eq k (count_of execution records.events))) [
        | inl e ↦ (nat_eq_iff k _).0 e
        | inr e ↦ absurd (
            not_both _
              (number_taken new k records.events (mine its) (number its) old
                (omega (arith, ne_of k _ e, few)))
              free)
      ]

  of_execution : (o : Option String) → has_text execution o ≡ true → o ≡ some execution
  of_execution none h = ground arith
  of_execution (some s) h = ap (λ t. some t) ((string_Eq.equals_iff s execution).0 h)

  save_event_on-Numbered :
      (id : String) (input : SaveEventInput) (n : ℕ) (records : Records) (o : Option String)
      → is_empty execution ≡ false
      → Numbered execution records.events
      → Numbered execution
          (or_unchanged records (save_event_on id input (drop n records.events) records o)).events
  unfolding save_event_on
  save_event_on-Numbered id input n records (some existing) named old = old
  save_event_on-Numbered id input n records none named old =
      let seen = drop n records.events in
      insert_event-Numbered (event_row id input seen) (max_seq execution seen) id records
        (λ its. rw (of_execution input.execution_id its, named) refl)
        (of_execution input.execution_id)
        (omega (
          arith,
          max_seq-count seen (drop-Numbered n records.events old),
          count_of-drop n records.events,
        ))
        old

-- However the calls of any clients that save events interleave, between the reading of the greatest
-- number and the INSERT too, and whether they have idempotency keys or none: the events of an
-- execution (one with a nonempty id) stay numbered 1, 2, 3 and so on in the order in which they were
-- inserted, if those in the table at first were.
pub save_events-Numbered :
    (execution : String) (calls : List SavedEvent) (records : Records)
    → is_empty execution ≡ false
    → Numbered execution records.events
    → Numbered execution (save_events calls records).events
unfolding save_events save_event
save_events-Numbered execution [] records named old = old
save_events-Numbered execution (e ∷ rest) records named old =
    save_events-Numbered execution rest
      (or_unchanged records (save_event e.after_find e.after_max e.id e.input records)) named
      (save_event_on-Numbered execution e.id e.input e.after_max records
        (existing_event e.input (drop e.after_find records.events) e.input.idempotency_key) named
        old)
