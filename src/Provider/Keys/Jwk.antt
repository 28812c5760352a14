-- ===== src/Provider/Keys/Jwk.antt =====
-- The key that a JWK gives: its numbers are those of the file, and they belong together.
use esignet_relay_authentica.Prelude.{
  ℕ, ◌<◌, ◌≡◌, true, ◌&&◌, Option, some, ◌⊎◌, inl, inr, ◌==◌, ==_iff, arith, if_elim,
}
use esignet_relay_authentica.Text.{txt, text_eq}
use esignet_relay_authentica.Json.{and_then, and_then-eq-some}
use esignet_relay_authentica.Provider.Keys.Defs.{
  EcKey, Key, rsa_key, ec_key, Crypto, Jwk, RsaNumbers, rsa_numbers, ec_numbers, matching,
  on_the_curve, same_pair, same_triple, jwk_key,
}

same_triple-eq : (s t : ℕ × ℕ × ℕ) → same_triple s t ≡ true → s ≡ t
same_triple-eq (a, b, c) (i, j, k) h = ground arith

same_pair-eq : (s t : ℕ × ℕ) → same_pair s t ≡ true → s ≡ t
same_pair-eq (a, b) (i, j) h = ground arith

module _ (lib : Crypto) (j : Jwk) (key : Key) where
  -- A valid key whose precomputed values are those of the file.
  pub record IsOfRsa : Type 0 where
    pub kty : j.kty ≡ txt "RSA"
    pub alg : j.alg ≡ txt "RS256"
    pub numbers : RsaNumbers
    pub reads : rsa_numbers j ≡ some numbers
    pub valid : lib.validates numbers.key ≡ true
    pub matches : lib.precomputed numbers.key ≡ (numbers.dp, numbers.dq, numbers.qi)
    pub is : key ≡ rsa_key numbers.key

  -- A scalar in range whose multiple of the generator is the point of the file.
  pub record IsOfEc : Type 0 where
    pub kty : j.kty ≡ txt "EC"
    pub alg : j.alg ≡ txt "ES256"
    pub crv : j.crv ≡ txt "P-256"
    pub numbers : EcKey
    pub reads : ec_numbers j ≡ some numbers
    pub positive : 0 < numbers.d
    pub below : numbers.d < lib.order
    pub on : lib.on_curve numbers.x numbers.y ≡ true
    pub point : lib.scalar_base_mult numbers.d ≡ (numbers.x, numbers.y)
    pub is : key ≡ ec_key numbers

  matching-eq-some :
      (r : RsaNumbers)
      → matching lib r ≡ some key
      → (lib.validates r.key ≡ true)
        × (lib.precomputed r.key ≡ (r.dp, r.dq, r.qi))
        × (key ≡ rsa_key r.key)
  matching-eq-some r h =
      let tests : lib.validates r.key && same_triple (lib.precomputed r.key) (r.dp, r.dq, r.qi)
          ≡ true =
        ground arith in
      (
        ground arith,
        same_triple-eq (lib.precomputed r.key) (r.dp, r.dq, r.qi) (ground arith),
        ground arith,
      )

  rsa_case :
      (j.kty == txt "RSA" && j.alg == txt "RS256") ≡ true
      → and_then (rsa_numbers j) (matching lib) ≡ some key
      → IsOfRsa
  rsa_case t h =
      let (r, reads, got) = and_then-eq-some (rsa_numbers j) (matching lib) key h in
      let (valid, matches, is) = matching-eq-some r got in
      record {
        kty = ground (arith, ==_iff j.kty (txt "RSA"));
        alg = ground (arith, ==_iff j.alg (txt "RS256"));
        numbers = r;
        reads = reads;
        valid = valid;
        matches = matches;
        is = is;
      }

  ec_case :
      (j.kty == txt "EC" && j.alg == txt "ES256" && j.crv == txt "P-256") ≡ true
      → and_then (ec_numbers j) (on_the_curve lib) ≡ some key
      → IsOfEc
  ec_case t h =
      let (k, reads, got) = and_then-eq-some (ec_numbers j) (on_the_curve lib) key h in
      record {
        kty = ground (arith, ==_iff j.kty (txt "EC"));
        alg = ground (arith, ==_iff j.alg (txt "ES256"));
        crv = ground (arith, ==_iff j.crv (txt "P-256"));
        numbers = k;
        reads = reads;
        positive = ground arith;
        below = ground arith;
        on = ground arith;
        point = same_pair-eq (lib.scalar_base_mult k.d) (k.x, k.y) (ground arith);
        is = ground arith;
      }

  pub jwk_key-cases : jwk_key lib j ≡ some key → IsOfRsa ⊎ IsOfEc
  unfolding jwk_key
  jwk_key-cases h =
      let goal = λ (o : Option Key). o ≡ some key → IsOfRsa ⊎ IsOfEc in
      if_elim goal (j.kty == txt "RSA" && j.alg == txt "RS256") (λ t got. inl (rsa_case t got))
        (λ f.
          if_elim goal (j.kty == txt "EC" && j.alg == txt "ES256" && j.crv == txt "P-256")
            (λ t got. inr (ec_case t got)) (λ g got. absurd (cc got)))
        h
