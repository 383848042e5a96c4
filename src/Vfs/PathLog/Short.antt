-- ===== src/Vfs/PathLog/Short.antt =====
-- What is printed of a log that has not gone round.
use bailey_forbes_flinstone.Base.{
  ℕ, zero, suc, ◌+◌, ◌%◌, ◌≡◌, ◌≤◌, ◌<◌, ◌∙◌, refl, sym, ap, ap₂, subst, arith, Bool, true, false,
  ◌||◌, List, [], ◌∷◌, ◌++◌, ◌==◌, ltb, min, map, map-append, length-append, append_assoc,
  append-nil, length, take, if◌then◌else◌, update,
}
use bailey_forbes_flinstone.Vfs.PathLog.{Entry, Log, log_max, log_record, entries_from, print}

-- An entry as the log keeps it.
abbrev pub stored : Entry → Entry
stored e = record { op = e.op; path = take 255 e.path }

-- The entries are recorded one after the other.
abbrev pub record_all : Log → List Entry → Log
record_all log [] = log
record_all log (e ∷ es) = record_all (log_record log e.op e.path) es

-- The log holds `es` from its first place on.
pub record IsLogged (log : Log) (es : List Entry) : Type 0 where
  pub on : log.inited ≡ true
  pub at_end : log.head ≡ length es
  pub counted : log.count ≡ length es
  pub holds : entries_from log.entries 0 (length es) ≡ map stored es

entries_from_snoc :
    (f : ℕ → Entry) (i n : ℕ)
    → entries_from f i (suc n) ≡ entries_from f i n ++ (f ((i + n) % log_max) ∷ [])
unfolding entries_from
entries_from_snoc f i zero = let p : i ≡ i + 0 = omega arith in ap (λ j. f (j % log_max) ∷ []) p
entries_from_snoc f i (suc n) =
    let p : i + 1 + n ≡ i + suc n = omega arith in
    ap (λ xs. f (i % log_max) ∷ xs)
      (entries_from_snoc f (i + 1) n
        ∙ ap (λ j. entries_from f (i + 1) n ++ (f (j % log_max) ∷ [])) p)

entries_from-update :
    (f : ℕ → Entry) (i n : ℕ) (e : Entry)
    → i + n < log_max
    → entries_from (update f (i + n) e) i n ≡ entries_from f i n
unfolding entries_from
entries_from-update f i zero e h = refl
entries_from-update f i (suc n) e h =
    let p : i + 1 + n ≡ i + suc n = omega arith in
    ap₂ ◌∷◌ (ground arith) (
      subst (λ j. entries_from (update f j e) (i + 1) n ≡ entries_from f (i + 1) n) p
        (entries_from-update f (i + 1) n e (omega arith)))

entries_from-take :
    (f : ℕ → Entry) (i n k : ℕ) → entries_from f i (min k n) ≡ take k (entries_from f i n)
unfolding entries_from
entries_from-take f i zero zero = let p : min 0 0 ≡ 0 = omega arith in ap (entries_from f i) p
entries_from-take f i zero (suc k) =
    let p : min (suc k) 0 ≡ 0 = omega arith in ap (entries_from f i) p
entries_from-take f i (suc n) zero =
    let p : min 0 (suc n) ≡ 0 = omega arith in ap (entries_from f i) p
entries_from-take f i (suc n) (suc k) =
    let p : min (suc k) (suc n) ≡ suc (min k n) = omega arith in
    ap (entries_from f i) p ∙ ap (λ xs. f (i % log_max) ∷ xs) (entries_from-take f (i + 1) n k)

log_record-IsLogged :
    (log : Log) (es : List Entry) (e : Entry)
    → IsLogged log es
    → length es + 1 < log_max
    → IsLogged (log_record log e.op e.path) (es ++ (e ∷ []))
log_record-IsLogged log es e l room =
    let size : length (es ++ (e ∷ [])) ≡ suc (length es) =
      omega (arith, length-append es (e ∷ [])) in
    let on = l.on in
    let at = l.at_end in
    let at0 : log.head ≡ 0 + length es = omega (arith, at) in
    let small : (length es + 1) % log_max ≡ length es + 1 = omega arith in
    let more : ltb log.count log_max ≡ true = ground (arith, l.counted) in
    subst (λ x. IsLogged x (es ++ (e ∷ []))) (sym grown)
      record {
        on = on;
        at_end = ap (λ i. (i + 1) % log_max) at ∙ omega arith;
        counted = ground (arith, l.counted);
        holds =
            ap (entries_from (update log.entries log.head (stored e)) 0) size
            ∙ entries_from_snoc (update log.entries log.head (stored e)) 0 (length es)
            ∙ ap₂ ◌++◌
                (ap (λ i. entries_from (update log.entries i (stored e)) 0 (length es)) at0
                  ∙ entries_from-update log.entries 0 (length es) (stored e) (omega arith)
                  ∙ l.holds)
                (ap (λ x. x ∷ []) (ground (arith, at)))
            ∙ sym (map-append stored es (e ∷ []));
      }
  where
    grown : log_record log e.op e.path ≡ record log {
      entries = update log.entries log.head (stored e);
      head = (log.head + 1) % log_max;
      count = if ltb log.count log_max then log.count + 1 else log.count;
    }
    grown =
        unfold log_record in
        ap
          (λ (b : Bool).
            if b
            then record log {
              entries = update log.entries log.head (stored e);
              head = (log.head + 1) % log_max;
              count = if ltb log.count log_max then log.count + 1 else log.count;
            }
            else log)
          l.on

record_all-IsLogged :
    (log : Log) (done es : List Entry)
    → IsLogged log done
    → length done + length es < log_max
    → IsLogged (record_all log es) (done ++ es)
record_all-IsLogged log done [] l h = subst (IsLogged log) (sym (append-nil done)) l
record_all-IsLogged log done (e ∷ es) l h =
    let size = length-append done (e ∷ []) in
    subst (IsLogged (record_all (log_record log e.op e.path) es)) (append_assoc done (e ∷ []) es) (
      record_all-IsLogged (log_record log e.op e.path) (done ++ (e ∷ [])) es
        (log_record-IsLogged log done e l (omega arith)) (omega arith))

print-IsLogged :
    (log : Log) (es : List Entry) (n : ℕ)
    → IsLogged log es
    → length es < log_max
    → 0 < n
    → n ≤ log_max
    → print log n ≡ take n (map stored es)
print-IsLogged log es n l h pos small =
    let some_wanted : (n == 0 || ltb log_max n) ≡ false = ground arith in
    let few : ltb log.count log_max ≡ true = ground (arith, l.counted) in
    let fits : min n log.count ≡ min n (length es) = omega (arith, l.counted) in
    printed some_wanted few
    ∙ ap (entries_from log.entries 0) fits
    ∙ entries_from-take log.entries 0 (length es) n
    ∙ ap (take n) l.holds
  where
    printed :
        (n == 0 || ltb log_max n) ≡ false
        → ltb log.count log_max ≡ true
        → print log n ≡ entries_from log.entries 0 (min n log.count)
    printed a b =
        unfold print in
        rw (a, b)
          (ap (λ (c : Bool). if c then entries_from log.entries 0 (min n log.count) else []) l.on)

-- After fewer than 64 records in an empty log, `path_log_print(n)`, with `n` from 1 to 64, prints
-- the first `n` of them, or all if there are fewer: the oldest ones, not the last ones.
pub print-record_all :
    (log : Log) (es : List Entry) (n : ℕ)
    → IsLogged log []
    → length es < log_max
    → 0 < n
    → n ≤ log_max
    → print (record_all log es) n ≡ take n (map stored es)
print-record_all log es n l h pos small =
    print-IsLogged (record_all log es) es n (record_all-IsLogged log [] es l (omega arith)) h pos
      small
