-- ===== src/Health/ByPercentage/Window.antt =====
-- The verdict rests on the latest answers: as many as the counter keeps.
use mathlib.Core.List.{append_assoc, append-nil}
use split_synchronizer.Health.ByPercentage.Sliding.{last_codes, moved_on}
use split_synchronizer.Health.ByPercentage.{
  ByPercentage, Config, new_counter_by_percentage, percentage_ok, calculate_healthy, remove_front,
  notify_hit,
}
use split_synchronizer.Prelude.Str.{Str}
use split_synchronizer.Prelude.{
  ℕ, ◌<◌, true, none, List, [], ◌∷◌, ◌++◌, if◌then◌else◌, length, ℤ, pos, int_eq, ◌==◌, nat_beq,
  leb, ◌≡◌, ◌≢◌, ◌↔◌, subst, sym, arith, ◌∙◌, ap, length-append,
}

pub record Hit : Type 0 where
  pub status_code : ℤ
  pub message : Str
  pub at : ℕ

abbrev pub run_hits : ByPercentage → List Hit → ByPercentage
run_hits c [] = c
run_hits c (h ∷ hits) = run_hits (notify_hit c h.status_code h.message h.at) hits

abbrev pub codes_of : List Hit → List ℤ
codes_of [] = []
codes_of (h ∷ hits) = h.status_code ∷ codes_of hits

cache-notify_hit :
    (c : ByPercentage) (code : ℤ) (message : Str) (at : ℕ)
    → (notify_hit c code message at).cache
      ≡ (if nat_beq (length c.cache) c.max_len then remove_front c.cache else c.cache) ++ code ∷ []
unfolding notify_hit calculate_healthy
cache-notify_hit c code message at = ground arith

limits-notify_hit :
    (c : ByPercentage) (code : ℤ) (message : Str) (at : ℕ)
    → ((notify_hit c code message at).max_len ≡ c.max_len)
      × ((notify_hit c code message at).percentage_to_be_healthy ≡ c.percentage_to_be_healthy)
unfolding notify_hit calculate_healthy
limits-notify_hit c code message at = (ground arith, ground arith)

-- One more answer moves the window on by one.
window_step :
    (c : ByPercentage) (past : List ℤ) (h : Hit)
    → 0 < c.max_len
    → c.cache ≡ last_codes c.max_len past
    → (notify_hit c h.status_code h.message h.at).cache
      ≡ last_codes c.max_len (past ++ h.status_code ∷ [])
window_step c past h p e =
    cache-notify_hit c h.status_code h.message h.at
    ∙ ap (λ w. (if nat_beq (length w) c.max_len then remove_front w else w) ++ h.status_code ∷ []) e
    ∙ moved_on c.max_len past h.status_code p

-- The two fields agree before the first answer too.
abbrev pub Since : ByPercentage → Type 0
Since c = (c.healthy ≡ true) ↔ (c.healthy_since ≢ none)

healthy-calculate :
    (c : ByPercentage) (now : ℕ)
    → 0 < length c.cache
    → (calculate_healthy c now).healthy ≡ leb c.percentage_to_be_healthy (percentage_ok c.cache)
unfolding calculate_healthy
healthy-calculate c now p = ground arith

Since-calculate :
    (c : ByPercentage) (now : ℕ) → 0 < length c.cache → Since c → Since (calculate_healthy c now)
unfolding calculate_healthy
Since-calculate c now p h = ground arith

-- The counter with the answer in its window, before the verdict.
abbrev pushed : ByPercentage → ℤ → Str → ByPercentage
pushed c code message = record c {
  cache =
      (if nat_beq (length c.cache) c.max_len then remove_front c.cache else c.cache) ++ code ∷ [];
  last_message = if code == pos 200 then c.last_message else message;
}

pushed_some :
    (c : ByPercentage) (code : ℤ) (message : Str) → 0 < length (pushed c code message).cache
pushed_some c code message = omega (
  arith,
  length-append (if nat_beq (length c.cache) c.max_len then remove_front c.cache else c.cache)
      (code ∷ []),
)

Since-notify_hit :
    (c : ByPercentage) (code : ℤ) (message : Str) (at : ℕ)
    → Since c
    → Since (notify_hit c code message at)
unfolding notify_hit
Since-notify_hit c code message at h =
    Since-calculate (pushed c code message) at (pushed_some c code message) h

healthy-notify_hit :
    (c : ByPercentage) (code : ℤ) (message : Str) (at : ℕ)
    → (notify_hit c code message at).healthy
      ≡ leb c.percentage_to_be_healthy (percentage_ok (pushed c code message).cache)
unfolding notify_hit
healthy-notify_hit c code message at =
    healthy-calculate (pushed c code message) at (pushed_some c code message)

-- The counter after a run of answers, whose latest make its window.
abbrev pub IsAfter : Config → List ℤ → ByPercentage → Type 0
IsAfter config past c =
    (c.cache ≡ last_codes config.max_len past)
    × ((c.max_len ≡ config.max_len)
        × (c.percentage_to_be_healthy ≡ config.percentage_to_be_healthy))
    × Since c

IsAfter-notify_hit :
    (config : Config) (past : List ℤ) (c : ByPercentage) (h : Hit)
    → 0 < config.max_len
    → IsAfter config past c
    → IsAfter config (past ++ h.status_code ∷ []) (notify_hit c h.status_code h.message h.at)
IsAfter-notify_hit config past c h p (w, l, s) =
    let limits = limits-notify_hit c h.status_code h.message h.at in
    (
      window_step c past h (omega arith) (w ∙ ap (λ n. last_codes n past) (sym (l.0)))
          ∙ ap (λ n. last_codes n (past ++ h.status_code ∷ [])) (l.0),
      (limits.0 ∙ l.0, limits.1 ∙ l.1),
      Since-notify_hit c h.status_code h.message h.at s,
    )

IsAfter-run :
    (config : Config) (past : List ℤ) (c : ByPercentage) (hits : List Hit)
    → 0 < config.max_len
    → IsAfter config past c
    → IsAfter config (past ++ codes_of hits) (run_hits c hits)
IsAfter-run config past c [] p a = subst (λ w. IsAfter config w c) (sym (append-nil past)) a
IsAfter-run config past c (h ∷ hits) p a =
    subst (λ w. IsAfter config w (run_hits c (h ∷ hits)))
      (append_assoc past (h.status_code ∷ []) (codes_of hits))
      (IsAfter-run config (past ++ h.status_code ∷ []) _ hits p
        (IsAfter-notify_hit config past c h p a))

new_counter-IsAfter :
    (config : Config) (now : ℕ) → IsAfter config [] (new_counter_by_percentage config now)
unfolding new_counter_by_percentage
new_counter-IsAfter config now = ground arith

-- A new counter that keeps at least one answer, after any answers and one more: its window is the
-- latest answers, as many as it keeps; it is healthy when the share of those that were 200, in
-- whole percent, reaches the configured one; and it has a time since when exactly if it is healthy.
pub run_hits-verdict :
    (config : Config) (now : ℕ) (hits : List Hit) (h : Hit)
    → 0 < config.max_len
    → ((notify_hit
          (run_hits (new_counter_by_percentage config now) hits)
          h.status_code
          h.message
          h.at).cache
        ≡ last_codes config.max_len (codes_of hits ++ h.status_code ∷ []))
      × ((notify_hit
            (run_hits (new_counter_by_percentage config now) hits)
            h.status_code
            h.message
            h.at).healthy
          ≡ leb config.percentage_to_be_healthy
              (percentage_ok (last_codes config.max_len (codes_of hits ++ h.status_code ∷ []))))
      × Since (
          notify_hit
            (run_hits (new_counter_by_percentage config now) hits)
            h.status_code
            h.message
            h.at)
run_hits-verdict config now hits h p =
    let c = run_hits (new_counter_by_percentage config now) hits in
    let a : IsAfter config (codes_of hits) c =
      IsAfter-run config [] (new_counter_by_percentage config now) hits p
        (new_counter-IsAfter config now) in
    let b = IsAfter-notify_hit config (codes_of hits) c h p a in
    (
      b.0,
      healthy-notify_hit c h.status_code h.message h.at
          ∙ ap (λ n. leb n (percentage_ok (pushed c h.status_code h.message).cache)) (a.1.1)
          ∙ ap (λ w. leb config.percentage_to_be_healthy (percentage_ok w))
              (sym (cache-notify_hit c h.status_code h.message h.at) ∙ b.0),
      b.2,
    )
