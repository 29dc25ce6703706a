-- ===== src/Streams/ReconcileJob/Reasons.antt =====
-- app/streams/processor.py: the reasons that are written to Redis as texts are read back by the job.
use auto_invest_manager.Base.{
  ◌≡◌, refl, sym, ◌∙◌, ap, Bool, true, List, [], ◌∷◌, map, any, String, str_eq, eq_iff, arith,
  Bool-cases, inl, inr, ok,
}
use auto_invest_manager.Models.Enums.{ReconciliationReason}
use auto_invest_manager.Redis.Sets.{RedisSet, IsRedisSet}
use auto_invest_manager.Streams.ReconcileJob.{
  value, reason_of_text, read_all, or_reconnected, read_reasons,
}

-- Members of a `StrEnum` are equal when their texts are.
abbrev pub same_reason : ReconciliationReason → ReconciliationReason → Bool
same_reason a b = str_eq (value a) (value b)

module _ (R : RedisSet) where
  -- `sadd(reasons_key, reason.value)` for each reason
  unfoldable pub collect : List ReconciliationReason → R.State
  collect [] = R.empty
  collect (r ∷ rs) = R.sadd (value r) (collect rs)

-- The reasons of the job: those that were given, or one that stands for none.
abbrev pub reasons_meant : List ReconciliationReason → List ReconciliationReason
reasons_meant [] = ReconciliationReason.stream_reconnected ∷ []
reasons_meant (r ∷ rs) = r ∷ rs

read-value : (r : ReconciliationReason) → reason_of_text (value r) ≡ ok r
read-value ReconciliationReason.portfolio_changed = refl
read-value ReconciliationReason.positions_changed = refl
read-value ReconciliationReason.user_trade = refl
read-value ReconciliationReason.stream_reconnected = refl
read-value ReconciliationReason.manual = refl

smembers-collect :
    (R : RedisSet)
    → IsRedisSet R
    → (w : String) (rs : List ReconciliationReason)
    → any (str_eq w) (R.smembers (collect R rs)) ≡ any (λ r. str_eq w (value r)) rs
unfolding collect
smembers-collect R law w [] = ap (any (str_eq w)) law.smembers-empty
smembers-collect R law w (r ∷ rs) =
    ground (arith, law.smembers-sadd (value r) w (collect R rs), smembers-collect R law w rs)

value_of_member :
    (w : String) (rs : List ReconciliationReason)
    → any (λ r. str_eq w (value r)) rs ≡ true
    → (r : ReconciliationReason) × (w ≡ value r)
value_of_member w [] h = absurd cc
value_of_member w (r ∷ rs) h = elim (Bool-cases (str_eq w (value r))) [
  | inl p ↦ (r, (eq_iff w (value r)).0 p)
  | inr p ↦ value_of_member w rs (ground arith)
]

read_all-values :
    (texts : List String)
    → ((w : String) → any (str_eq w) texts ≡ true → (r : ReconciliationReason) × (w ≡ value r))
    → (read : List ReconciliationReason) × (read_all texts ≡ ok read) × (map value read ≡ texts)
read_all-values [] h = ([], refl, refl)
read_all-values (t ∷ ts) h =
    let (r, p) = h t (ground (arith, (eq_iff t t).1 refl)) in
    let (rs, q, u) = read_all-values ts (λ w e. h w (ground arith)) in
    (r ∷ rs, ground (arith, read-value r), ground arith)

any-map :
    (w : String) (rs : List ReconciliationReason)
    → any (str_eq w) (map value rs) ≡ any (λ r. str_eq w (value r)) rs
any-map w [] = refl
any-map w (r ∷ rs) = ground (arith, any-map w rs)

-- The reasons whose texts were added to the set in Redis, in whatever order and however often, are
-- the reasons that the job reads back: the reading does not raise, and a reason is read exactly
-- when it was added; from an empty set the job reads STREAM_RECONNECTED alone.
pub read_reasons-collect :
    (R : RedisSet)
    → IsRedisSet R
    → (rs : List ReconciliationReason)
    → (read : List ReconciliationReason) × (read_reasons (R.smembers (collect R rs)) ≡ ok read)
      × ((r : ReconciliationReason)
          → any (same_reason r) read ≡ any (same_reason r) (reasons_meant rs))
unfolding read_reasons
read_reasons-collect R law rs =
    let texts = R.smembers (collect R rs) in
    let (read, p, q) =
      read_all-values texts (λ w e. value_of_member w rs (sym (smembers-collect R law w rs) ∙ e)) in
    let same : (r : ReconciliationReason) → any (same_reason r) read ≡ any (same_reason r) rs = λ r.
      sym (any-map (value r) read)
      ∙ ap (any (str_eq (value r))) q
      ∙ smembers-collect R law (value r) rs in
    meant rs read texts p same
  where
    meant :
        (rs read : List ReconciliationReason) (texts : List String)
        → read_all texts ≡ ok read
        → ((r : ReconciliationReason) → any (same_reason r) read ≡ any (same_reason r) rs)
        → (out : List ReconciliationReason) × (or_reconnected (read_all texts) ≡ ok out)
          × ((r : ReconciliationReason)
              → any (same_reason r) out ≡ any (same_reason r) (reasons_meant rs))
    meant [] [] texts p same =
        (ReconciliationReason.stream_reconnected ∷ [], ground arith, λ r. refl)
    meant [] (x ∷ read) texts p same =
        absurd (ground (arith, same x, (eq_iff (value x) (value x)).1 refl))
    meant (x ∷ rs) [] texts p same =
        absurd (ground (arith, same x, (eq_iff (value x) (value x)).1 refl))
    meant (x ∷ rs) (y ∷ read) texts p same = (y ∷ read, ground arith, same)
