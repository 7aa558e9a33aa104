-- ===== src/Store/Laws/Replay.antt =====
-- The event feed tells the history: the "state" events of a review, in the order of the log, are its
-- recorded history, and the sequence numbers of its events count up from 1
-- (reviewer/store/repositories.py).
pub mod Rows
use code_reviewer.Prelude.{
  ℕ, zero, suc, ◌+◌, max, String, ◌≡◌, refl, sym, ap, ◌∙◌, inl, inr, Bool, true, false, List, [],
  ◌∷◌, ◌++◌, arith, if◌then◌else◌, Bool-cases,
}
use code_reviewer.Prelude.Text.{str_eq, eq_of_str_eq}
use mathlib.Core.List.{append-nil}
use code_reviewer.States.{ReviewState}
use code_reviewer.Store.Rows.{
  ReviewEvent, EventData, state_event, other_event, add_event, last_sequence,
}

-- The states that the log tells of one review.
abbrev pub told : EventData → List ReviewState → List ReviewState
told (state_event s) rest = s ∷ rest
told (other_event kind content) rest = rest

abbrev pub states_of : String → List ReviewEvent → List ReviewState
states_of id [] = []
states_of id (e ∷ es) =
    let rest = states_of id es in if str_eq e.review_id id then told e.payload rest else rest

abbrev pub sequences_of : String → List ReviewEvent → List ℕ
sequences_of id [] = []
sequences_of id (e ∷ es) =
    let rest = sequences_of id es in if str_eq e.review_id id then e.sequence ∷ rest else rest

-- 1, 2, ..., n.
abbrev pub count_up : ℕ → List ℕ
count_up zero = []
count_up (suc n) = count_up n ++ (suc n ∷ [])

abbrev max_of : List ℕ → ℕ
max_of [] = 0
max_of (n ∷ ns) = max n (max_of ns)

last_sequence-max_of :
    (id : String) (es : List ReviewEvent) → last_sequence id es ≡ max_of (sequences_of id es)
unfolding last_sequence
last_sequence-max_of id [] = refl
last_sequence-max_of id (e ∷ es) = elim (Bool-cases (str_eq e.review_id id)) [
  | inl h ↦ rw (h, last_sequence-max_of id es)
  | inr h ↦ rw h (last_sequence-max_of id es)
]

max_of-append : (ns : List ℕ) (n : ℕ) → max_of (ns ++ (n ∷ [])) ≡ max (max_of ns) n
max_of-append [] n = omega arith
max_of-append (m ∷ ns) n = omega (arith, max_of-append ns n)

max_of-count_up : (n : ℕ) → max_of (count_up n) ≡ n
max_of-count_up zero = refl
max_of-count_up (suc n) = omega (arith, max_of-append (count_up n) (suc n), max_of-count_up n)

told-append : (d : EventData) (xs ys : List ReviewState) → told d (xs ++ ys) ≡ told d xs ++ ys
told-append (state_event s) xs ys = refl
told-append (other_event kind content) xs ys = refl

-- What one more event adds to both lists.
states_of-append :
    (id : String) (e : ReviewEvent) (es : List ReviewEvent)
    → states_of id (es ++ (e ∷ []))
      ≡ states_of id es ++ (if str_eq e.review_id id then told e.payload [] else [])
states_of-append id e [] = ground arith
states_of-append id e (f ∷ es) = elim (Bool-cases (str_eq f.review_id id)) [
  | inl h ↦ rw (h, states_of-append id e es) (told-append f.payload (states_of id es) _)
  | inr h ↦ rw h (states_of-append id e es)
]

sequences_of-append :
    (id : String) (e : ReviewEvent) (es : List ReviewEvent)
    → sequences_of id (es ++ (e ∷ []))
      ≡ sequences_of id es ++ (if str_eq e.review_id id then e.sequence ∷ [] else [])
sequences_of-append id e [] = ground arith
sequences_of-append id e (f ∷ es) = elim (Bool-cases (str_eq f.review_id id)) [
  | inl h ↦ rw (h, sequences_of-append id e es)
  | inr h ↦ rw h (sequences_of-append id e es)
]

-- The sequence numbers of a review's events are 1, 2, ..., up to its last one.
pub record Numbered (es : List ReviewEvent) : Type 0 where
  pub counts : (id : String) → sequences_of id es ≡ count_up (last_sequence id es)

counted_up :
    (id : String) (es : List ReviewEvent) (n : ℕ)
    → sequences_of id es ≡ count_up n
    → sequences_of id es ≡ count_up (last_sequence id es)
counted_up id es n h =
    let last : last_sequence id es ≡ n =
      last_sequence-max_of id es ∙ ap max_of h ∙ max_of-count_up n in
    h ∙ ap count_up (sym last)

pub add_event-Numbered :
    (id : String) (payload : EventData) (es : List ReviewEvent)
    → Numbered es
    → Numbered (add_event id payload es)
unfolding add_event
add_event-Numbered id payload es num =
    let e : ReviewEvent = record {
      review_id = id;
      sequence = last_sequence id es + 1;
      payload = payload;
    } in
    record {
      counts = λ j. elim (Bool-cases (str_eq id j)) [
        | inl h ↦ counted_up j (es ++ (e ∷ [])) (suc (last_sequence j es)) (
            sequences_of-append j e es
            ∙ rw (h, num.counts j, eq_of_str_eq id j h)
                (ap (λ (n : ℕ). count_up (last_sequence j es) ++ (n ∷ [])) (omega arith)))
        | inr h ↦
            counted_up j (es ++ (e ∷ [])) (last_sequence j es)
              (sequences_of-append j e es ∙ rw (h, append-nil) (num.counts j))
      ];
    }

-- The states that the log tells, after one more state event.
pub states_of-add_event :
    (id j : String) (s : ReviewState) (es : List ReviewEvent)
    → states_of j (add_event id (state_event s) es)
      ≡ states_of j es ++ (if str_eq id j then s ∷ [] else [])
unfolding add_event
states_of-add_event id j s es =
    states_of-append j
      (record { review_id = id; sequence = last_sequence id es + 1; payload = state_event s }) es

pub states_of-log :
    (id j kind content : String) (es : List ReviewEvent)
    → states_of j (add_event id (other_event kind content) es) ≡ states_of j es
unfolding add_event
states_of-log id j kind content es =
    states_of-append j
      (record {
        review_id = id;
        sequence = last_sequence id es + 1;
        payload = other_event kind content;
      })
      es
    ∙ nothing (str_eq id j) (states_of j es)
  where
    nothing :
        (b : Bool) (l : List ReviewState)
        → l ++ (if b then told (other_event kind content) [] else []) ≡ l
    nothing true l = append-nil l
    nothing false l = append-nil l
