-- ===== src/Server/Journal/Kept.antt =====
-- Which messages of a sequence the server's log keeps.
use mathlib.Core.List.{append_assoc}
use gputop.Base.{
  ℕ, ◌+◌, ◌≤◌, ◌≡◌, refl, ap, ◌∙◌, Option, some, List, [], ◌∷◌, ◌++◌, Bytes, length, length-append,
  take, length-take, take-append_le, take_all, arith, lt→ltb, le→ltb, Bool-cases, inl, inr, ltb,
  map, true, false, ◌==◌,
}
use gputop.Server.Journal.{LogEntry, Journal, empty, without_last, copied, add, log, get_pb_log}

-- A call of `gputop_log`.
pub record Call : Type 0 where
  pub level : ℕ
  pub message : Bytes
  pub len : Option ℕ

abbrev pub entry_of : Call → LogEntry
entry_of c = record { level = c.level; msg = copied c.message c.len }

pub log_all : Journal → List Call → Journal
log_all j [] = j
log_all j (c ∷ cs) = log_all (log j c.level c.message c.len) cs

without_last-snoc : (es : List LogEntry) (e : LogEntry) → without_last (es ++ (e ∷ [])) ≡ es
without_last-snoc [] e = refl
without_last-snoc (f ∷ []) e = refl
without_last-snoc (f ∷ g ∷ es) e = ap (λ t. f ∷ t) (without_last-snoc (g ∷ es) e)

-- What the log holds after the entries `es` and a last one.
unfoldable pub kept : ℕ → List LogEntry → LogEntry → Journal
kept limit es last = record {
  entries = take limit es ++ (last ∷ []);
  log_len = length (take limit es) + 1;
}

take_same :
    (n : ℕ) (es : List LogEntry) (last : LogEntry)
    → n ≤ length es
    → take n (es ++ (last ∷ [])) ≡ take n es
take_same n es last h = take-append_le n es (last ∷ []) h

add-kept :
    (limit : ℕ) (es : List LogEntry) (last e : LogEntry)
    → add limit (kept limit es last) e ≡ kept limit (es ++ (last ∷ [])) e
unfolding add kept
add-kept limit es last e = elim (Bool-cases (ltb limit (length es + 1))) [
  | inl full ↦
      let enough : limit ≤ length es = ground arith in
      let count : length (take limit es) ≡ limit = omega (arith, length-take {0} limit es) in
      let test : ltb limit (length (take limit es) + 1) ≡ true = lt→ltb _ _ (omega arith) in
      rw (test, without_last-snoc (take limit es) last, take_same limit es last enough, count)
        (ap (λ k. record { entries = take limit es ++ (e ∷ []); log_len = k }) (omega arith))
  | inr room ↦
      let few : length es + 1 ≤ limit = ground arith in
      let whole : take limit es ≡ es = take_all limit es (omega arith) in
      let test : ltb limit (length (take limit es) + 1) ≡ false =
        le→ltb _ _ (omega (arith, length-take {0} limit es)) in
      let grown : take limit (es ++ (last ∷ [])) ≡ es ++ (last ∷ []) =
        take_all limit _ (omega (arith, length-append {0} es (last ∷ []))) in
      rw (test, grown, whole)
        (ap (λ k. record { entries = (es ++ (last ∷ [])) ++ (e ∷ []); log_len = k })
          (omega (arith, length-append {0} es (last ∷ []))))
]

log_all-kept :
    (es : List LogEntry) (last : LogEntry) (cs : List Call) (c : Call)
    → log_all (kept 10000 es last) (cs ++ (c ∷ []))
      ≡ kept 10000 (es ++ (last ∷ map entry_of cs)) (entry_of c)
unfolding log_all log
log_all-kept es last [] c = add-kept 10000 es last (entry_of c)
log_all-kept es last (d ∷ cs) c =
    ap (λ j. log_all j (cs ++ (c ∷ []))) (add-kept 10000 es last (entry_of d))
    ∙ log_all-kept (es ++ (last ∷ [])) (entry_of d) cs c
    ∙ ap (λ xs. kept 10000 xs (entry_of c))
        (append_assoc es (last ∷ []) (entry_of d ∷ map entry_of cs))

log-first : (c : Call) → log empty c.level c.message c.len ≡ kept 10000 [] (entry_of c)
unfolding log add kept
log-first c = refl

log_all-empty :
    (cs : List Call) (c : Call)
    → log_all empty (cs ++ (c ∷ [])) ≡ kept 10000 (map entry_of cs) (entry_of c)
unfolding log_all
log_all-empty [] c = log-first c
log_all-empty (d ∷ cs) c =
    ap (λ j. log_all j (cs ++ (c ∷ []))) (log-first d) ∙ log_all-kept [] (entry_of d) cs c

get_pb_log-kept :
    (es : List LogEntry) (last : LogEntry)
    → get_pb_log (kept 10000 es last) ≡ (some (take 10000 es ++ (last ∷ [])), empty)
unfolding get_pb_log kept
get_pb_log-kept es last =
    let some_entry : (length (take 10000 es) + 1 == 0) ≡ false = ground arith in rw some_entry refl

-- After any sequence of calls on an empty log, `gputop_get_pb_log` takes out the first 10000
-- messages and the last one, and leaves the log empty: every message behind the first 10001 has
-- replaced the one before it.
pub get_pb_log-log_all :
    (cs : List Call) (c : Call)
    → get_pb_log (log_all empty (cs ++ (c ∷ [])))
      ≡ (some (take 10000 (map entry_of cs) ++ (entry_of c ∷ [])), empty)
get_pb_log-log_all cs c =
    ap get_pb_log (log_all-empty cs c) ∙ get_pb_log-kept (map entry_of cs) (entry_of c)
