-- ===== src/Resilience/RateLimiter/Quota.antt =====
-- No window of the given length ever holds more admitted requests of a key than its limit.
use mathlib.Core.List.{append-nil, append_assoc}
use fictional_barnacle.Prelude.{
  ℕ, ◌+◌, ◌*◌, ◌≤◌, ◌<◌, String, ◌≡◌, refl, sym, ap, ◌∙◌, inl, inr, Bool, true, ◌&&◌, List, [], ◌∷◌,
  ◌++◌, arith, str_eq, eq_iff, leb→le, leb, if◌then◌else◌, ltb, Bool-cases, length-append, filter,
  length, length-filter_mono, filter-filter_of_imp, filter-append,
}
use fictional_barnacle.Prelude.Dict.{lookup}
use fictional_barnacle.Resilience.Clock.{second}
use fictional_barnacle.Resilience.RateLimiter.{
  InMemoryRateLimiter, check, init, is_alive, window_of,
}
use fictional_barnacle.Resilience.RateLimiter.Keys.{window_of-check}

pub record Request : Type 0 where
  pub key : String
  pub limit : ℕ
  pub window_seconds : ℕ
  pub now : ℕ

-- The requests are served in turn; the result is the times of those of the key `k` that were
-- allowed.
unfoldable pub admitted : String → InMemoryRateLimiter → List Request → List ℕ
admitted k limiter [] = []
admitted k limiter (r ∷ rs) =
    let (result, limiter') = check limiter r.key r.limit r.window_seconds r.now in
    let rest = admitted k limiter' rs in
    if str_eq r.key k && result.allowed then r.now ∷ rest else rest

-- The times do not fall, and every request of the key `k` has the same limit and window.
abbrev pub IsUniform : String → ℕ → ℕ → ℕ → List Request → Type 0
IsUniform k limit window_seconds start [] = Unit
IsUniform k limit window_seconds start (r ∷ rs) =
    (start ≤ r.now)
    × (str_eq r.key k ≡ true → (r.limit ≡ limit) × (r.window_seconds ≡ window_seconds))
    × IsUniform k limit window_seconds r.now rs

-- How many of the times lie in the window of `span` microseconds that ends at `t`.
abbrev pub in_window : ℕ → ℕ → ℕ → Bool
in_window span t a = leb a t && ltb t (a + span)

abbrev pub count_in : ℕ → ℕ → List ℕ → ℕ
count_in span t times = length (filter (in_window span t) times)

alive_of_in_window :
    (span t now a : ℕ) → now ≤ t → in_window span t a ≡ true → is_alive span now a ≡ true
alive_of_in_window span t now a le h = ground arith

alive_mono :
    (span latest now a : ℕ)
    → latest ≤ now
    → is_alive span now a ≡ true
    → is_alive span latest a ≡ true
alive_mono span latest now a le h = ground arith

-- What agrees on the entries alive at one time agrees on those alive later.
alive_later :
    (span latest now : ℕ) (xs ys : List ℕ)
    → latest ≤ now
    → filter (is_alive span latest) xs ≡ filter (is_alive span latest) ys
    → filter (is_alive span now) xs ≡ filter (is_alive span now) ys
alive_later span latest now xs ys le e =
    sym (later xs) ∙ ap (filter (is_alive span now)) e ∙ later ys
  where
    later :
        (zs : List ℕ)
        → filter (is_alive span now) (filter (is_alive span latest) zs)
          ≡ filter (is_alive span now) zs
    later zs =
        filter-filter_of_imp (is_alive span latest) (is_alive span now) zs
          (λ a. alive_mono span latest now a le)

-- A new entry fits while fewer than `limit` are alive.
within-append :
    (span limit now : ℕ) (history : List ℕ)
    → ((t : ℕ) → count_in span t history ≤ limit)
    → length (filter (is_alive span now) history) < limit
    → (t : ℕ) → count_in span t (history ++ now ∷ []) ≤ limit
within-append span limit now history h room t =
    rw
      (
        filter-append (in_window span t) history (now ∷ []),
        length-append (filter (in_window span t) history) (filter (in_window span t) (now ∷ [])),
      )
      (elim (Bool-cases (leb now t)) [
        | inl le ↦ ground (arith, older (leb→le now t le))
        | inr gt ↦ ground (arith, h t)
      ])
  where
    older : now ≤ t → count_in span t history ≤ length (filter (is_alive span now) history)
    older le =
        length-filter_mono (in_window span t) (is_alive span now) history
          (λ a. alive_of_in_window span t now a le)

module _ (k : String) (limit window_seconds : ℕ) where
  abbrev span : ℕ
  span = window_seconds * second

  -- The stored window is what is alive, at the time of the latest request, of all that was
  -- admitted.
  record Tracks (history : List ℕ) (latest : ℕ) (limiter : InMemoryRateLimiter) : Type 0 where
    stored :
        filter (is_alive span latest) (window_of limiter k) ≡ filter (is_alive span latest) history
    within : (t : ℕ) → count_in span t history ≤ limit

  own-Tracks :
      (history : List ℕ) (latest now : ℕ) (limiter : InMemoryRateLimiter)
      → latest ≤ now
      → Tracks history latest limiter
      → let (result, limiter') = check limiter k limit window_seconds now in
        Tracks (if result.allowed then history ++ now ∷ [] else history) now limiter'
  own-Tracks history latest now limiter le v =
      let w = window_of-check limiter k k limit window_seconds now in
      let alive = filter (is_alive span now) (window_of limiter k) in
      let alive_again : filter (is_alive span now) alive ≡ alive =
        filter-filter_of_imp (is_alive span now) (is_alive span now) (window_of limiter k)
          (λ a h. h) in
      let same = alive_later span latest now (window_of limiter k) history le v.stored in
      let (result, limiter') = check limiter k limit window_seconds now in
      elim (Bool-cases result.allowed) [
        | inl granted ↦ rw granted (record {
          stored =
              let e : window_of limiter' k ≡ alive ++ now ∷ [] = ground (arith, w, eq_iff k k) in
              rw (
                e,
                filter-append (is_alive span now) alive (now ∷ []),
                filter-append (is_alive span now) history (now ∷ []),
                alive_again,
                same,
              );
          within = within-append span limit now history v.within (rw (← same) (w.0.0 granted));
        })
        | inr denied ↦ rw denied (record {
          stored =
              let e : window_of limiter' k ≡ alive = ground (arith, w, eq_iff k k) in
              rw (e, alive_again, same);
          within = v.within;
        })
      ]

  step-Tracks :
      (history : List ℕ) (latest : ℕ) (limiter : InMemoryRateLimiter) (r : Request)
      → latest ≤ r.now
      → (str_eq r.key k ≡ true → (r.limit ≡ limit) × (r.window_seconds ≡ window_seconds))
      → Tracks history latest limiter
      → let (result, limiter') = check limiter r.key r.limit r.window_seconds r.now in
        Tracks
          (if str_eq r.key k && result.allowed then history ++ r.now ∷ [] else history)
          r.now
          limiter'
  step-Tracks history latest limiter r le same v = elim (Bool-cases (str_eq r.key k)) [
    | inl own ↦
        rw (own, (eq_iff r.key k).0 own, (same own).0, (same own).1)
          (own-Tracks history latest r.now limiter le v)
    | inr other ↦ rw other (record {
      stored =
          let e : window_of (check limiter r.key r.limit r.window_seconds r.now).1 k
              ≡ window_of limiter k =
            ground (arith, window_of-check limiter r.key k r.limit r.window_seconds r.now) in
          rw e (alive_later span latest r.now (window_of limiter k) history le v.stored);
      within = v.within;
    })
  ]

  admitted-within :
      (history : List ℕ) (latest : ℕ) (limiter : InMemoryRateLimiter) (rs : List Request)
      → IsUniform k limit window_seconds latest rs
      → Tracks history latest limiter
      → (t : ℕ) → count_in span t (history ++ admitted k limiter rs) ≤ limit
  unfolding admitted
  admitted-within history latest limiter [] u v t = rw append-nil (v.within t)
  admitted-within history latest limiter (r ∷ rs) (le, same, u) v t =
      let (result, limiter') = check limiter r.key r.limit r.window_seconds r.now in
      let w = step-Tracks history latest limiter r le same v in
      elim (Bool-cases (str_eq r.key k && result.allowed)) [
        | inl granted ↦ rw granted (
            rw (append_assoc history (r.now ∷ []) (admitted k limiter' rs)) at
              (admitted-within (history ++ r.now ∷ []) r.now limiter' rs u (rw granted at w) t))
        | inr denied ↦ rw denied (admitted-within history r.now limiter' rs u (rw denied at w) t)
      ]

init-Tracks : (k : String) (limit window_seconds : ℕ) → Tracks k limit window_seconds [] 0 init
unfolding init window_of lookup
init-Tracks k limit window_seconds = record { stored = refl; within = λ t. omega arith }

-- Whatever requests arrive in order of time, for this key and for others, a limiter that starts
-- empty allows at most `limit` requests of the key in any window of `window_seconds` seconds,
-- provided that every request of the key is checked against that limit and that window.
pub admitted-le-limit :
    (k : String) (limit window_seconds : ℕ) (rs : List Request) (t : ℕ)
    → IsUniform k limit window_seconds 0 rs
    → count_in (window_seconds * second) t (admitted k init rs) ≤ limit
admitted-le-limit k limit window_seconds rs t u =
    admitted-within k limit window_seconds [] 0 init rs u (init-Tracks k limit window_seconds) t
