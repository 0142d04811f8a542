-- ===== src/Config/Policy.antt =====
-- Updates of the remote configuration (cf_config.c) under one policy.
use esp_cf_tunnel.Prelude.{
  ℕ, ◌≤◌, ◌≡◌, ◌≢◌, inl, inr, refl, ap, Bool, true, false, ◌||◌, not, Option, none, some, List, [],
  ◌∷◌, ltb, ◌==◌, if◌then◌else◌, length, arith, Bool-cases, bytes_of,
}
use esp_cf_tunnel.Core.{Bytes, CfResult, CfError, Result-cases, argument, format}
use esp_cf_tunnel.Json.{Number, Item, Cjson, json_parse, json_keys}
use esp_cf_tunnel.Config.{
  RemoteConfig, Reason, invalid_version, invalid_json, invalid_policy, Applied, applied, int32_max,
  init, publish, is_version, number_of, valid_policy, message_limit, apply, apply_root,
  apply_config, apply_rules, warp_refused, same_string, empty_object, run,
}

-- What holds of the configuration under a policy: it is either as `cf_config_init` left it, or it names the
-- hostname and the service of the policy, with a version.
pub record IsHeld (hostname service : Bytes) (st : RemoteConfig) : Type 0 where
  pub untouched : st.valid ≡ false → st ≡ init
  pub named : st.valid ≡ true → (st.hostname ≡ hostname) × (st.service ≡ service)
  pub permitted : st.valid ≡ true → valid_policy hostname service ≡ true
  pub versioned : st.valid ≡ true → (v : ℕ) × (st.version ≡ some v) × (v ≤ int32_max)

-- No version is older than none.
abbrev pub NotOlder : Option ℕ → Option ℕ → Type 0
NotOlder none new = Unit
NotOlder (some old) none = ⊥
NotOlder (some old) (some new) = old ≤ new

same_version : (v : Option ℕ) → NotOlder v v
same_version none = tt
same_version (some v) = omega arith

newer_version : (v : Option ℕ) (n : ℕ) → ((old : ℕ) → v ≡ some old → old ≤ n) → NotOlder v (some n)
newer_version none n h = tt
newer_version (some old) n h = h old refl

-- What an update leaves.
pub record Follows (hostname service : Bytes) (st : RemoteConfig) (a : Applied) : Type 0 where
  -- A refused update changes nothing.
  pub atomic : a.0 ≢ none → a.2 ≡ st
  pub taken : a.0 ≡ none → a.2.valid ≡ true
  pub newer : NotOlder st.version a.2.version
  pub held : IsHeld hostname service a.2

failed : (e : CfError) → some e ≢ none
failed e h = absurd (ground (arith, h))

module _ (lib : Cjson) (st : RemoteConfig) (hostname service : Bytes)
    (h : IsHeld hostname service st) where
  refused-Follows :
      (rc : CfResult) (why : Reason) → rc ≢ none → Follows hostname service st (rc, why, st)
  refused-Follows rc why e = record {
    atomic = λ z. refl;
    taken = λ z. absurd (e z);
    newer = same_version st.version;
    held = h;
  }

  -- A version that is replaced is older.
  below :
      (version : ℕ)
      → not st.valid || (elim st.version [ none ↦ true | some old ↦ ltb old version ]) ≡ true
      → (old : ℕ) → st.version ≡ some old
      → old ≤ version
  unfolding init
  below version t old e = elim (Bool-cases st.valid) [
    | inl v ↦ ground (arith, rw (v, e) at t)
    | inr v ↦ absurd (ground (arith, ap (λ c. c.version) (h.untouched v), e))
  ]

  published-Follows :
      (version : ℕ)
      → valid_policy hostname service ≡ true
      → version ≤ int32_max
      → Follows hostname service st (none, applied, publish st version hostname service)
  unfolding publish
  published-Follows version permitted small =
      let newer : Bool = elim st.version [ none ↦ true | some old ↦ ltb old version ] in
      elim (Bool-cases (not st.valid || newer)) [
        | inl t ↦
            rw (publish, t)
              (record {
                atomic = λ z. absurd (z refl);
                taken = λ z. refl;
                newer = newer_version st.version version (below version t);
                held = record {
                  untouched = λ z. absurd (ground (arith, z));
                  named = λ z. (refl, refl);
                  permitted = λ z. permitted;
                  versioned = λ z. (version, refl, small);
                };
              })
        | inr t ↦
            rw (publish, t)
              (record {
                atomic = λ z. absurd (z refl);
                taken = λ z. ground (arith, t);
                newer = same_version st.version;
                held = h;
              })
      ]

  -- A test that refuses the update, before the rest.
  guarded-Follows :
      (b : Bool) (e : CfError) (why : Reason) (rest : Applied)
      → Follows hostname service st rest
      → Follows hostname service st (if b then (some e, why, st) else rest)
  guarded-Follows true e why rest f = refused-Follows (some e) why (failed e)
  guarded-Follows false e why rest f = f

  apply_rules-Follows :
      (first last : Option Item) (version : ℕ)
      → valid_policy hostname service ≡ true
      → version ≤ int32_max
      → Follows hostname service st (apply_rules lib st first last version hostname service)
  unfolding apply_rules
  apply_rules-Follows first last version permitted small =
      let hostname_item = lib.get_item first (bytes_of "hostname") in
      let fallback = lib.get_item last (bytes_of "service") in
      guarded-Follows
        (not (
          json_keys lib first
            (bytes_of "hostname" ∷ bytes_of "service" ∷ bytes_of "originRequest" ∷ [])))
        _ _ _
        (guarded-Follows (not (json_keys lib last (bytes_of "service" ∷ []))) _ _ _ (
          guarded-Follows (not (same_string lib hostname_item hostname)) _ _ _ (
            guarded-Follows
              (not (same_string lib (lib.get_item first (bytes_of "service")) service)) _ _ _
              (guarded-Follows (not (same_string lib fallback (bytes_of "http_status:404"))) _ _ _ (
                guarded-Follows
                  (not (empty_object lib (lib.get_item first (bytes_of "originRequest")))) _ _ _
                  (published-Follows version permitted small))))))

  apply_config-Follows :
      (config : Option Item) (version : ℕ)
      → valid_policy hostname service ≡ true
      → version ≤ int32_max
      → Follows hostname service st (apply_config lib st config version hostname service)
  unfolding apply_config
  apply_config-Follows config version permitted small =
      let rules = lib.get_item config (bytes_of "ingress") in
      guarded-Follows
        (not (
          json_keys lib config
            (bytes_of "ingress" ∷ bytes_of "originRequest" ∷ bytes_of "warp-routing" ∷ [])))
        _ _ _
        (guarded-Follows (not (empty_object lib (lib.get_item config (bytes_of "originRequest")))) _
          _ _
          (guarded-Follows (warp_refused lib (lib.get_item config (bytes_of "warp-routing"))) _ _ _
            (guarded-Follows (not (lib.is_array rules) || not (lib.array_size rules == 2)) _ _ _ (
              apply_rules-Follows (lib.array_item rules 0) (lib.array_item rules 1) version
                permitted small))))

  small_version : (v : Number) → is_version v ≡ true → v.whole ≤ int32_max
  unfolding is_version
  small_version v t = ground (arith, t)

  apply_root-Follows :
      (root : Item)
      → valid_policy hostname service ≡ true
      → Follows hostname service st (apply_root lib st root hostname service)
  unfolding apply_root
  apply_root-Follows root permitted =
      let version = lib.get_item (some root) (bytes_of "version") in
      let keys = bytes_of "version" ∷ bytes_of "config" ∷ [] in
      let config = lib.get_item (some root) (bytes_of "config") in
      guarded-Follows (not (json_keys lib (some root) keys)) _ _ _
        (elim (Bool-cases (not (lib.is_number version) || not (is_version (number_of version)))) [
          | inl t ↦ rw (t) (refused-Follows (some format) invalid_version (failed format))
          | inr t ↦ rw (t) (
              apply_config-Follows config (number_of version).whole permitted
                (small_version (number_of version) (ground (arith, t))))
        ])

  -- An update that is refused, for whatever reason, changes nothing; an update that is accepted leaves a valid
  -- configuration. The version never goes back, and a valid configuration names the hostname and the
  -- service of the policy, both within their bounds, with a version from 0 to 2^31 - 1.
  pub apply-Follows :
      (update : Bytes) → Follows hostname service st (apply lib st update hostname service)
  unfolding apply
  apply-Follows update = elim (Bool-cases (valid_policy hostname service)) [
    | inl t ↦ rw (t) (
        guarded-Follows (length update == 0 || ltb message_limit (length update)) _ _ _
          (elim (Result-cases (json_parse lib update)) [
            | inl (root, q) ↦ rw (q) (apply_root-Follows root t)
            | inr (e, q) ↦ rw (q) (refused-Follows (some e) invalid_json (failed e))
          ]))
    | inr t ↦ rw (t) (refused-Follows (some argument) invalid_policy (failed argument))
  ]

pub init-IsHeld : (hostname service : Bytes) → IsHeld hostname service init
unfolding init
init-IsHeld hostname service = record {
  untouched = λ z. refl;
  named = λ z. absurd (ground (arith, z));
  permitted = λ z. absurd (ground (arith, z));
  versioned = λ z. absurd (ground (arith, z));
}

NotOlder-trans : (a b c : Option ℕ) → NotOlder a b → NotOlder b c → NotOlder a c
NotOlder-trans none b c p q = tt
NotOlder-trans (some x) none c p q = absurd p
NotOlder-trans (some x) (some y) none p q = absurd q
NotOlder-trans (some x) (some y) (some z) p q = omega arith

-- After any sequence of updates, good and bad ones in any order, the configuration is still held by the policy,
-- and no update has brought an older version back.
pub run-IsHeld :
    (lib : Cjson) (hostname service : Bytes) (updates : List Bytes) (st : RemoteConfig)
    → IsHeld hostname service st
    → let st' = run lib hostname service st updates in
      IsHeld hostname service st' × NotOlder st.version st'.version
unfolding run
run-IsHeld lib hostname service [] st h = (h, same_version st.version)
run-IsHeld lib hostname service (u ∷ us) st h =
    let next = (apply lib st u hostname service).2 in
    let step = apply-Follows lib st hostname service h u in
    let (held, later) = run-IsHeld lib hostname service us next step.held in
    (held, NotOlder-trans st.version next.version _ step.newer later)
