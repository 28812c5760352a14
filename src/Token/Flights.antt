-- ===== src/Token/Flights.antt =====
-- Any number of goroutines in `accessToken` and `invalidate`, in any order of their locked sections,
-- under a clock that does not run backwards.
use esignet_relay_authentica.Prelude.{
  ℕ, ◌<◌, ◌≡◌, refl, sym, ap, ◌∙◌, ◌≢◌, ◌⊎◌, ◌↔◌, inl, inr, true, false, eqb, arith, Bool-cases,
}
use esignet_relay_authentica.Text.{Text, text_eq}
use esignet_relay_authentica.Types.{Time, Result, ok, err}
use esignet_relay_authentica.Token.Defs.{Cache, Entry, hit, wait, lead, enter, settle, invalidate}
use esignet_relay_authentica.Token.Sections.{enter-eq-hit_iff, settle_lem}
use esignet_relay_authentica.Token.Steps.{
  outside, leading, returned, is_leading, System, update, after_entry, after_settle, Step, elapse,
  request, leave, land, refuse, Reach, start, next,
}

-- At most one goroutine leads, and one does exactly while the flag is set.
record Inv (s : System) : Type 0 where
  single : (i j : ℕ) → is_leading (s.pc i) ≡ true → is_leading (s.pc j) ≡ true → i ≡ j
  none_lead : s.cache.acquiring ≡ false → (i : ℕ) → is_leading (s.pc i) ≡ false
  one_leads : s.cache.acquiring ≡ true → (i : ℕ) × (is_leading (s.pc i) ≡ true)

-- The cache after `enter`: the flag is only ever set, and set by the goroutine that leads.
enter_flag :
    (now : Time) (c : Cache)
    → ((after_entry now (enter now c).0 ≡ leading now)
        × (c.acquiring ≡ false)
        × ((enter now c).1.acquiring ≡ true))
      ⊎ ((is_leading (after_entry now (enter now c).0) ≡ false)
          × ((enter now c).1.acquiring ≡ c.acquiring))
unfolding enter
enter_flag now c = ground arith

request-Inv :
    (s : System) (i : ℕ)
    → is_leading (s.pc i) ≡ false
    → Inv s
    → Inv (record s {
      cache = (enter s.now s.cache).1;
      pc = update s.pc i (after_entry s.now (enter s.now s.cache).0);
    })
request-Inv s i idle v = elim (enter_flag s.now s.cache) [
  | inl (leads, free, set) ↦ record {
    single = λ j k p q. ground (arith, v.none_lead free j, v.none_lead free k);
    none_lead = λ unset j. cc (set, unset);
    one_leads = λ _. (i, ground arith);
  }
  | inr (waits, same) ↦ record {
    single = λ j k p q. v.single j k (ground arith) (ground arith);
    none_lead = λ unset j. ground (arith, v.none_lead (sym same ∙ unset) j);
    one_leads = λ set. let (j, leads) = v.one_leads (sym same ∙ set) in (j, ground arith);
  }
]

settle_flag :
    (since now : Time) (r : Result (Text × Time)) (c : Cache)
    → ((settle since now r c).0.acquiring ≡ false)
      × (is_leading (after_settle now (settle since now r c).1) ≡ false)
unfolding settle
settle_flag since now (ok (t, lifetime)) c = ground arith
settle_flag since now (err e) c = (refl, refl)

land-Inv :
    (s : System) (i : ℕ) (since : Time) (r : Result (Text × Time))
    → s.pc i ≡ leading since
    → Inv s
    → Inv (record s {
      cache = (settle since s.now r s.cache).0;
      pc = update s.pc i (after_settle s.now (settle since s.now r s.cache).1);
    })
land-Inv s i since r leads v =
    let (unset, quiet) = settle_flag since s.now r s.cache in
    let others : (j : ℕ)
        → is_leading (update s.pc i (after_settle s.now (settle since s.now r s.cache).1) j)
          ≡ false =
      λ j. elim (Bool-cases (eqb i j)) [
        | inl here ↦ ground (arith, quiet)
        | inr other ↦ elim (Bool-cases (is_leading (s.pc j))) [
          | inl too ↦ absurd (ground (arith, v.single i j (ground arith) too))
          | inr idle ↦ ground arith
        ]
      ] in
    record {
      single = λ j k p q. cc (others j, p);
      none_lead = λ _ j. others j;
      one_leads = λ set. cc (set, unset);
    }

leave-Inv :
    (s : System) (i : ℕ)
    → is_leading (s.pc i) ≡ false
    → Inv s
    → Inv (record s { pc = update s.pc i outside })
leave-Inv s i idle v = record {
  single = λ j k p q. v.single j k (ground arith) (ground arith);
  none_lead = λ unset j. ground (arith, v.none_lead unset j);
  one_leads = λ set. let (j, leads) = v.one_leads set in (j, ground arith);
}

invalidate_flag : (token : Text) (c : Cache) → (invalidate token c).acquiring ≡ c.acquiring
unfolding invalidate
invalidate_flag token c = ground arith

Step-Inv : {s t : System} → Step s t → Inv s → Inv t
Step-Inv (elapse t h) v = record {
  single = v.single;
  none_lead = v.none_lead;
  one_leads = v.one_leads;
}
Step-Inv {s} (request i h) v = request-Inv s i h v
Step-Inv {s} (leave i h) v = leave-Inv s i h v
Step-Inv {s} (land i since r h) v = land-Inv s i since r h v
Step-Inv {s} (refuse token) v = record {
  single = v.single;
  none_lead = λ unset. v.none_lead (sym (invalidate_flag token s.cache) ∙ unset);
  one_leads = λ set. v.one_leads (sym (invalidate_flag token s.cache) ∙ set);
}

Reach-Inv : {s : System} → Reach s → Inv s
Reach-Inv start = record {
  single = λ i j p q. cc (p);
  none_lead = λ _ i. refl;
  one_leads = λ set. cc (set);
}
Reach-Inv (next r st) = Step-Inv st (Reach-Inv r)

-- Single flight: in every reachable state at most one goroutine leads an acquisition, and one does
-- exactly while `acquiring` is set; so a goroutine that waits waits for one that is under way.
pub single_flight :
    (s : System)
    → Reach s
    → ((i j : ℕ) → is_leading (s.pc i) ≡ true → is_leading (s.pc j) ≡ true → i ≡ j)
      × ((s.cache.acquiring ≡ true) ↔ ((i : ℕ) × (is_leading (s.pc i) ≡ true)))
single_flight s r =
    let v = Reach-Inv r in
    (
      v.single,
      (
        v.one_leads,
        λ (i, leads). elim (Bool-cases s.cache.acquiring) [
          | inl set ↦ set
          | inr unset ↦ cc (v.none_lead unset i, leads)
        ],
      ),
    )

after_entry_returned :
    (now at_time : Time) (e : Entry) (token : Text)
    → after_entry now e ≡ returned token at_time
    → (at_time ≡ now) × (e ≡ hit token)
after_entry_returned now at_time (hit t) token h = (cc, cc)
after_entry_returned now at_time wait token h = cc
after_entry_returned now at_time lead token h = cc

after_settle_returned :
    (now at_time : Time) (r : Result Text) (token : Text)
    → after_settle now r ≡ returned token at_time
    → (at_time ≡ now) × (r ≡ ok token)
after_settle_returned now at_time (ok t) token h = (cc, cc)
after_settle_returned now at_time (err e) token h = cc

enter_keeps :
    (now : Time) (c : Cache) (token : Text)
    → (enter now c).0 ≡ hit token
    → ((enter now c).1.token ≡ token) × (now < (enter now c).1.deadline)
unfolding enter
enter_keeps now c token h = ground (arith, (enter-eq-hit_iff now c token).0 h)

settle_keeps :
    (since now : Time) (r : Result (Text × Time)) (c : Cache) (token : Text)
    → (settle since now r c).1 ≡ ok token
    → ((settle since now r c).0.token ≡ token) × (now < (settle since now r c).0.deadline)
settle_keeps since now r c token h =
    let (lifetime, is, live, cached) = settle_lem since now r c token h in
    (ap (λ (k : Cache). k.token) cached, rw cached live)

-- Every token that a goroutine gets, from the cache or from the acquisition that it leads, is at
-- that moment the cached one and its deadline lies ahead: whatever step brings a goroutine back
-- with a token.
pub returned_token_live :
    (s t : System) (i : ℕ) (token : Text) (at_time : Time)
    → Step s t
    → s.pc i ≢ returned token at_time
    → t.pc i ≡ returned token at_time
    → (at_time ≡ t.now) × (t.cache.token ≡ token) × (t.now < t.cache.deadline)
returned_token_live s t i token at_time (elapse _ _) was is = absurd (was is)
returned_token_live s t i token at_time (refuse _) was is = absurd (was is)
returned_token_live s t i token at_time (leave j h) was is = elim (Bool-cases (eqb j i)) [
  | inl here ↦ cc (here, is)
  | inr other ↦ absurd (was (ground arith))
]
returned_token_live s t i token at_time (request j h) was is = elim (Bool-cases (eqb j i)) [
  | inl here ↦
      let (time, entry) =
        after_entry_returned s.now at_time (enter s.now s.cache).0 token (rw here at is) in
      let (same, live) = enter_keeps s.now s.cache token entry in (time, same, live)
  | inr other ↦ absurd (was (rw other at is))
]
returned_token_live s t i token at_time (land j since r h) was is = elim (Bool-cases (eqb j i)) [
  | inl here ↦
      let (time, got) =
        after_settle_returned s.now at_time (settle since s.now r s.cache).1 token
          (rw here at is) in
      let (same, live) = settle_keeps since s.now r s.cache token got in (time, same, live)
  | inr other ↦ absurd (was (rw other at is))
]
