-- ===== src/Engine/Consent.antt =====
-- integration/overlay/internal/engine/breg/consent.go: a consent decision for each login. The arguments
-- that are only passed on are one type.
use esignet_relay_authentica.Prelude.{
  ◌≡◌, refl, sym, ap, subst, ◌∙◌, ◌≢◌, ◌↔◌, ◌⊎◌, inl, inr, Bool, true, false, Option, none, some,
  if◌then◌else◌, ◌==◌, ==_iff, Bool-cases,
}
use esignet_relay_authentica.Text.{Text, txt, text_eq, text_beq}

-- A `common.ServiceError`, of which the code is looked at.
pub record ConsentError : Type 0 where
  pub code : Text
  pub detail : Text

-- `providers.ConsentProvider`: recording gives a record and an error or none, resolving takes whether
-- a prompt is forced.
pub record ConsentProvider (Args Outcome : Type 0) : Type 0 where
  pub record_consent : Args → Outcome × Option ConsentError
  pub resolve_consent : Args → Bool → Outcome × Option ConsentError

abbrev pub essential_denied : Text
essential_denied = txt "essential_consent_denied"

abbrev pub refusal_code : Text
refusal_code = txt "AUTH-CES-1006"

unfoldable pub mapped : Option ConsentError → Option ConsentError
unfolding text_beq
mapped none = none
mapped (some e) =
    if e.code == essential_denied then some (record e { code = refusal_code }) else some e

abbrev map_error :
    {Outcome : Type 0} → Outcome × Option ConsentError → Outcome × Option ConsentError
map_error (outcome, e) = (outcome, mapped e)

-- `freshConsentProvider`.
unfoldable pub fresh_consent :
    {Args Outcome : Type 0} → ConsentProvider Args Outcome → ConsentProvider Args Outcome
unfolding mapped
fresh_consent p = record {
  record_consent = λ args. map_error (p.record_consent args);
  resolve_consent = λ args forced. p.resolve_consent args true;
}

unfoldable pub with_fresh_consent :
    {Args Outcome : Type 0} → Text → ConsentProvider Args Outcome → ConsentProvider Args Outcome
unfolding fresh_consent text_beq
with_fresh_consent provider consent =
    if provider == txt "breg" then fresh_consent consent else consent

-- What an error of recording becomes. A denial has the refusal's code, and its detail, afterwards; no
-- error otherwise changes.
pub record IsTranslated (before after : Option ConsentError) : Type 0 where
  pub kept : (after ≡ none) ↔ (before ≡ none)
  pub exact :
      (e : ConsentError)
      → (after ≡ some e) ↔ (
          ((before ≡ some e) × (e.code ≢ essential_denied))
          ⊎ ((f : ConsentError) × (before ≡ some f)
              × (f.code ≡ essential_denied)
              × (e ≡ record { code = refusal_code; detail = f.detail })))

-- A consent provider `q` that stands before `p`.
pub record IsFresh {Args Outcome : Type 0} (p q : ConsentProvider Args Outcome) : Type 0 where
  pub prompted :
      (args : Args) (forced : Bool) → q.resolve_consent args forced ≡ p.resolve_consent args true
  pub recorded : (args : Args) → (q.record_consent args).0 ≡ (p.record_consent args).0
  pub translated : (args : Args) → IsTranslated (p.record_consent args).1 (q.record_consent args).1

codes_differ : refusal_code ≢ essential_denied
unfolding text_beq
codes_differ e = cc ((==_iff refusal_code essential_denied).1 e)

some_inj : {x y : ConsentError} → Path (Option ConsentError) (some x) (some y) → x ≡ y
some_inj h = cc h

abbrev refusal : ConsentError → ConsentError
refusal e = record e { code = refusal_code }

mapped-denied : (e : ConsentError) → e.code ≡ essential_denied → mapped (some e) ≡ some (refusal e)
unfolding mapped
mapped-denied e h = rw ((==_iff e.code essential_denied).1 h) refl

mapped-other : (e : ConsentError) → (e.code == essential_denied) ≡ false → mapped (some e) ≡ some e
unfolding mapped
mapped-other e h = rw h refl

not_denied : (e : ConsentError) → (e.code == essential_denied) ≡ false → e.code ≢ essential_denied
not_denied e h z = cc ((==_iff e.code essential_denied).1 z, h)

mapped-IsTranslated : (o : Option ConsentError) → IsTranslated o (mapped o)
unfolding mapped
mapped-IsTranslated none = record {
  kept = (λ h. h, λ h. h);
  exact = λ e. (
    λ h. absurd (cc h),
    λ h. elim h [ inl same ↦ absurd (cc same.0) | inr denied ↦ absurd (cc denied.1) ],
  );
}
mapped-IsTranslated (some e) = elim (Bool-cases (e.code == essential_denied)) [
  | inl denied ↦
      let code : e.code ≡ essential_denied = (==_iff e.code essential_denied).0 denied in
      let is = mapped-denied e code in
      record {
        kept = (λ h. absurd (cc (is, h)), λ h. absurd (cc h));
        exact = λ f. (
          λ h. inr (e, refl, code, some_inj (sym h ∙ is)),
          λ h. elim h [
            | inl same ↦
                absurd (same.1 (ap (λ (x : ConsentError). x.code) (sym (some_inj same.0)) ∙ code))
            | inr (g, same, denial, turned) ↦
                is ∙ ap (λ x. some (refusal x)) (some_inj same) ∙ ap some (sym turned)
          ],
        );
      }
  | inr other ↦
      let is = mapped-other e other in
      record {
        kept = (λ h. absurd (cc (is, h)), λ h. absurd (cc h));
        exact = λ f. (
          λ h.
              let same : e ≡ f = some_inj (sym is ∙ h) in
              inl (
                ap some same,
                subst (λ (x : ConsentError). x.code ≢ essential_denied) same (not_denied e other),
              ),
          λ h. elim h [
            | inl same ↦ is ∙ same.0
            | inr (g, same, denial, turned) ↦
                absurd
                  (not_denied e other (ap (λ (x : ConsentError). x.code) (some_inj same) ∙ denial))
          ],
        );
      }
]

mapped-mapped : (o : Option ConsentError) → mapped (mapped o) ≡ mapped o
unfolding mapped
mapped-mapped none = refl
mapped-mapped (some e) = elim (Bool-cases (e.code == essential_denied)) [
  | inl denied ↦
      ap mapped (mapped-denied e ((==_iff e.code essential_denied).0 denied))
      ∙ mapped-other (refusal e) refl
      ∙ sym (mapped-denied e ((==_iff e.code essential_denied).0 denied))
  | inr other ↦ ap mapped (mapped-other e other)
]

-- Before the identity provider `breg`, and before no other, a consent provider is changed. There a
-- consent is always resolved with the prompt forced, whatever was asked for. Recording returns the same
-- record, and an error just where it did: for an essential denial the error of the same detail with the
-- code that stops the flow, and every other error as it is. Wrapping twice changes nothing more.
pub with_fresh_consent_lem :
    {Args Outcome : Type 0} (provider : Text) (p : ConsentProvider Args Outcome)
    → (((provider ≡ txt "breg") × IsFresh p (with_fresh_consent provider p))
        ⊎ ((provider ≢ txt "breg") × (with_fresh_consent provider p ≡ p)))
      × (with_fresh_consent provider (with_fresh_consent provider p)
          ≡ with_fresh_consent provider p)
unfolding with_fresh_consent fresh_consent
with_fresh_consent_lem provider p = elim (Bool-cases (provider == txt "breg")) [
  | inl breg ↦ rw breg (
    inl (
      (==_iff provider (txt "breg")).0 breg,
      record {
        prompted = λ args forced. refl;
        recorded = λ args. refl;
        translated = λ args. mapped-IsTranslated (p.record_consent args).1;
      },
    ),
    λ i. record {
      record_consent =
          λ args. ((p.record_consent args).0, mapped-mapped (p.record_consent args).1 i);
      resolve_consent = λ args forced. p.resolve_consent args true;
    },
  )
  | inr other ↦ rw other (inr (λ z. cc ((==_iff provider (txt "breg")).1 z, other), refl), refl)
]
