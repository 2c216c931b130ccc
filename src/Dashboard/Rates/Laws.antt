-- ===== src/Dashboard/Rates/Laws.antt =====
-- The exchange rates over a run of requests, one after another from the start of the dashboard.
use canary_mining.Common.{
  ◌+◌, ◌<◌, ◌≤◌, ◌≡◌, ◌⊎◌, refl, sym, ap, subst, arith, true, false, Option, none, some, List, [],
  ◌∷◌, Result, ok, err, Bool-cases, inl, inr,
}
use canary_mining.Common.Int64.{ℤ, pos, negsuc}
use canary_mining.Common.Text.Basic.{Text}
use canary_mining.Dashboard.Rates.{
  ExchangeRateCache, ExchangeRatesResponse, exchange_rates_response, after_fetch, is_fresh,
  rates_of,
}

-- The first time is less than ten minutes after the second, or before it.
abbrev pub IsYoung : ℤ → ℤ → Type 0
IsYoung (pos m) (pos n) = m < n + 600
IsYoung (pos m) (negsuc n) = m + n + 1 < 600
IsYoung (negsuc m) (pos n) = Unit
IsYoung (negsuc m) (negsuc n) = n < m + 600

-- The opposite.
abbrev pub IsOld : ℤ → ℤ → Type 0
IsOld (pos m) (pos n) = n + 600 ≤ m
IsOld (pos m) (negsuc n) = 600 ≤ m + n + 1
IsOld (negsuc m) (pos n) = ⊥
IsOld (negsuc m) (negsuc n) = m + 600 ≤ n

-- A request, by its time and what a fetch would give then.
abbrev pub Request : Type 0 → Type 0 → Type 0
Request F E = ℤ × Result E (List (Text × F))

abbrev pub empty_cache : {F : Type 0} → ExchangeRateCache F
empty_cache = record { rates = []; updated_at = none }

-- Nothing is stored, or it is ten minutes old.
abbrev pub IsDue : ℤ → Option ℤ → Type 0
IsDue now none = Unit
IsDue now (some time) = IsOld now time

fresh-IsYoung : (now time : ℤ) → is_fresh now (some time) ≡ true → IsYoung now time
fresh-IsYoung (pos m) (pos n) h = ground (arith, h)
fresh-IsYoung (pos m) (negsuc n) h = ground (arith, h)
fresh-IsYoung (negsuc m) (pos n) h = tt
fresh-IsYoung (negsuc m) (negsuc n) h = ground (arith, h)

fresh-IsOld : (now time : ℤ) → is_fresh now (some time) ≡ false → IsOld now time
fresh-IsOld (pos m) (pos n) h = ground (arith, h)
fresh-IsOld (pos m) (negsuc n) h = ground (arith, h)
fresh-IsOld (negsuc m) (pos n) h = absurd (ground (arith, h))
fresh-IsOld (negsuc m) (negsuc n) h = ground (arith, h)

not_fresh-IsDue : (now : ℤ) (o : Option ℤ) → is_fresh now o ≡ false → IsDue now o
not_fresh-IsDue now none h = tt
not_fresh-IsDue now (some time) h = fresh-IsOld now time h

now-IsYoung : (now : ℤ) → IsYoung now now
now-IsYoung (pos m) = omega arith
now-IsYoung (negsuc m) = omega arith

module _ {F E : Type 0} where
  -- The cache after requests, the last one first.
  unfoldable pub cache_after : List (Request F E) → ExchangeRateCache F
  unfolding exchange_rates_response
  cache_after [] = empty_cache
  cache_after ((now, fetched) ∷ past) = (exchange_rates_response (cache_after past) now fetched).0

  -- One of the requests came at this time, when the rates that were stored, if any, were ten minutes
  -- old, and its fetch gave these rates.
  abbrev pub WasFetched : ℤ → List (Text × F) → List (Request F E) → Type 0
  WasFetched time rates [] = ⊥
  WasFetched time rates ((now, ok offered) ∷ requests) =
      ((now ≡ time) × (offered ≡ rates) × IsDue now (cache_after requests).updated_at)
      ⊎ WasFetched time rates requests
  WasFetched time rates ((now, err e) ∷ requests) = WasFetched time rates requests

  -- Nothing was stored, or rates that one of the requests fetched, with its time.
  abbrev IsStored : List (Request F E) → ExchangeRateCache F → Type 0
  IsStored requests cache =
      (cache ≡ empty_cache)
      ⊎ ((time : ℤ) × (rates : List (Text × F)) × WasFetched time rates requests
          × (cache ≡ record { rates = rates; updated_at = some time }))

  abbrev pub IsError : Result E (List (Text × F)) → Type 0
  IsError fetched = (e : E) × (fetched ≡ err e)

  -- The answer to the first of the requests, when `before` was the cache.
  abbrev pub IsPriced :
      ExchangeRateCache F
      → ℤ
      → Result E (List (Text × F))
      → List (Request F E)
      → Result E (ExchangeRatesResponse F)
      → Type 0
  IsPriced before now fetched past (err e) = (fetched ≡ err e) × (before.rates ≡ [])
  IsPriced before now fetched past (ok r) =
      (time : ℤ) × WasFetched time r.rates ((now, fetched) ∷ past)
      × (r.updated_at ≡ some time)
      × (((r.stale ≡ false) × IsYoung now time)
          ⊎ ((r.stale ≡ true) × IsOld now time × IsError fetched))

  WasFetched-∷ :
      (time now : ℤ) (rates : List (Text × F)) (fetched : Result E (List (Text × F)))
      (past : List (Request F E))
      → WasFetched time rates past
      → WasFetched time rates ((now, fetched) ∷ past)
  WasFetched-∷ time now rates (ok offered) past w = inr w
  WasFetched-∷ time now rates (err e) past w = w

  IsStored-∷ :
      (now : ℤ) (fetched : Result E (List (Text × F))) (past : List (Request F E))
      (cache : ExchangeRateCache F)
      → IsStored past cache
      → IsStored ((now, fetched) ∷ past) cache
  IsStored-∷ now fetched past cache (inl e) = inl e
  IsStored-∷ now fetched past cache (inr (time, rates, w, e)) =
      inr (time, rates, WasFetched-∷ time now rates fetched past w, e)

  fetch-IsStored :
      (now : ℤ) (fetched : Result E (List (Text × F))) (past : List (Request F E))
      (cache : ExchangeRateCache F)
      → IsStored past cache
      → IsDue now (cache_after past).updated_at
      → IsStored ((now, fetched) ∷ past) (after_fetch cache now fetched).0
  fetch-IsStored now (ok rates) past cache s due = inr (now, rates, inl (refl, refl, due), refl)
  fetch-IsStored now (err e) past cache s due = IsStored-∷ now (err e) past cache s

  cache_after-IsStored : (past : List (Request F E)) → IsStored past (cache_after past)
  unfolding cache_after exchange_rates_response
  cache_after-IsStored [] = inl refl
  cache_after-IsStored ((now, fetched) ∷ past) =
      let before = cache_after past in
      let stored = cache_after-IsStored past in
      elim (Bool-cases (is_fresh now before.updated_at)) [
        | inl e ↦ rw (cache_after, e) (IsStored-∷ now fetched past before stored)
        | inr e ↦
            rw (cache_after, e)
              (fetch-IsStored now fetched past before stored
                (not_fresh-IsDue now before.updated_at e))
      ]

  fetch-IsPriced :
      (before : ExchangeRateCache F) (now : ℤ) (fetched : Result E (List (Text × F)))
      (past : List (Request F E))
      → IsStored past before
      → IsDue now (cache_after past).updated_at
      → is_fresh now before.updated_at ≡ false
      → IsPriced before now fetched past (after_fetch before now fetched).1
  fetch-IsPriced before now (ok rates) past s due e =
      (now, inl (refl, refl, due), refl, inl (refl, now-IsYoung now))
  fetch-IsPriced before now (err x) past (inl none_yet) due e = rw none_yet (refl, refl)
  fetch-IsPriced before now (err x) past (inr (time, [], w, same)) due e = rw same (refl, refl)
  fetch-IsPriced before now (err x) past (inr (time, rate ∷ rates, w, same)) due e =
      rw same (time, w, refl, inr (refl, fresh-IsOld now time (rw same at e), (x, refl)))

  fresh-IsPriced :
      (before : ExchangeRateCache F) (now : ℤ) (fetched : Result E (List (Text × F)))
      (past : List (Request F E))
      → IsStored past before
      → is_fresh now before.updated_at ≡ true
      → IsPriced before now fetched past (ok (rates_of false before))
  fresh-IsPriced before now fetched past (inl none_yet) e = absurd (ground (arith, none_yet, e))
  fresh-IsPriced before now fetched past (inr (time, rates, w, same)) e = (
    time,
    subst (λ c. WasFetched time c.rates ((now, fetched) ∷ past)) (sym same)
        (WasFetched-∷ time now rates fetched past w),
    ap (λ c. c.updated_at) same,
    inl (refl, fresh-IsYoung now time (rw same at e)),
  )

  -- After any requests, one after another, the next one is answered with the rates, and the time, of
  -- itself or of an earlier request that fetched them, when the rates stored before, if any, were ten
  -- minutes old. They are marked as stale exactly if ten minutes or more have passed since that time,
  -- which happens only when the fetch now fails. An error is that of the fetch, and comes only while no
  -- rates are stored.
  pub exchange_rates_response-IsPriced :
      (past : List (Request F E)) (now : ℤ) (fetched : Result E (List (Text × F)))
      → IsPriced
          (cache_after past)
          now
          fetched
          past
          (exchange_rates_response (cache_after past) now fetched).1
  unfolding exchange_rates_response
  exchange_rates_response-IsPriced past now fetched =
      let before = cache_after past in
      let stored = cache_after-IsStored past in
      elim (Bool-cases (is_fresh now before.updated_at)) [
        | inl e ↦ rw e (fresh-IsPriced before now fetched past stored e)
        | inr e ↦ rw e (
            fetch-IsPriced before now fetched past stored (not_fresh-IsDue now before.updated_at e)
              e)
      ]
