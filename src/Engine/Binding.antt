-- ===== src/Engine/Binding.antt =====
-- Whom a binding is for: a registered client and its relying party.
use esignet_relay_authentica.Prelude.{
  ◌≡◌, refl, sym, ap, ◌∙◌, ◌≢◌, ◌⊎◌, inl, inr, Bool, true, false, some, List, [], ◌∷◌, ==_iff,
  arith, Option-cases,
}
use esignet_relay_authentica.Text.{Text, txt, text_eq, is_empty, is_empty_iff}
use esignet_relay_authentica.Types.{Binding}
use esignet_relay_authentica.Engine.Defs.{
  Reply, done, fault, Client, ClientAnswer, found, not_found, broken, Authenticator, Metadata,
  bound, values_of, single, transaction_of, of_client, binding,
}

-- What the metadata and the registered clients say of a binding.
pub record IsResolved (p : Authenticator) (metadata : Metadata) (required : Bool) (b : Binding)
    : Type 0 where
  pub client_given : values_of (txt "initiator_query_client_id") metadata ≡ b.client_id ∷ []
  pub client_nonempty : b.client_id ≢ []
  pub get_client : Text → ClientAnswer
  pub resolver : p.clients ≡ some get_client
  pub client : Client
  pub registered : get_client b.client_id ≡ found client
  pub same_client : client.client_id ≡ b.client_id
  pub party : client.rp_id ≡ b.relying_party_id
  pub party_nonempty : b.relying_party_id ≢ []
  pub transaction :
      ((values_of (txt "provider_ext_TransactionID") metadata ≡ b.transaction_id ∷ [])
        × (b.transaction_id ≢ []))
      ⊎ ((required ≡ false)
          × (values_of (txt "provider_ext_TransactionID") metadata ≡ [])
          × (b.transaction_id ≡ []))

single_some : (vs : List Text) (t : Text) → single vs ≡ some t → (vs ≡ t ∷ []) × (t ≢ [])
single_some [] t h = absurd (cc h)
single_some (v ∷ []) t h = ground (arith, is_empty_iff v)
single_some (v ∷ w ∷ vs) t h = absurd (cc h)

empty_list : (vs : List Text) → is_empty vs ≡ true → vs ≡ []
empty_list [] h = refl
empty_list (v ∷ vs) h = absurd (cc h)

transaction_lem :
    (transactions : List Text) (required : Bool) (t : Text)
    → transaction_of transactions required ≡ done t
    → ((transactions ≡ t ∷ []) × (t ≢ [])) ⊎ ((required ≡ false) × (transactions ≡ []) × (t ≡ []))
unfolding transaction_of
transaction_lem transactions required t h = elim (Option-cases (single transactions)) [
  | inl lost ↦ inr (ground arith, empty_list transactions (ground arith), ground arith)
  | inr (s, one) ↦
      let same : s ≡ t = ground arith in inl (single_some transactions t (one ∙ ap some same))
]

-- What a resolved client says of the binding.
record IsBound (id : Text) (answer : ClientAnswer) (transactions : List Text) (required : Bool)
    (b : Binding) : Type 0 where
  client : Client
  registered : answer ≡ found client
  same : client.client_id ≡ id
  given : id ≡ b.client_id
  party : client.rp_id ≡ b.relying_party_id
  party_nonempty : b.relying_party_id ≢ []
  transaction :
      ((transactions ≡ b.transaction_id ∷ []) × (b.transaction_id ≢ []))
      ⊎ ((required ≡ false) × (transactions ≡ []) × (b.transaction_id ≡ []))

bound_lem :
    (id party : Text) (r : Reply Text) (b : Binding)
    → bound id party r ≡ done b
    → (id ≡ b.client_id) × (party ≡ b.relying_party_id) × (r ≡ done b.transaction_id)
bound_lem id party (done t) b h = (cc h, cc h, cc h)
bound_lem id party (fault e) b h = absurd (cc h)

of_client-IsBound :
    (id : Text) (answer : ClientAnswer) (transactions : List Text) (required : Bool) (b : Binding)
    → of_client id answer transactions required ≡ done b
    → IsBound id answer transactions required b
unfolding of_client
of_client-IsBound id not_found transactions required b h = absurd (cc h)
of_client-IsBound id broken transactions required b h = absurd (cc h)
of_client-IsBound id (found client) transactions required b h =
    let same : client.client_id ≡ id = (==_iff client.client_id id).0 (ground arith) in
    let (given, party, t) =
      bound_lem client.client_id client.rp_id (transaction_of transactions required) b
        (ground arith) in
    record {
      client = client;
      registered = refl;
      same = same;
      given = sym same ∙ given;
      party = party;
      party_nonempty = λ e. ground (arith, is_empty_iff client.rp_id, party ∙ e);
      transaction = transaction_lem transactions required b.transaction_id t;
    }

-- A binding is given only for the one client of the request that the resolver knows under just this
-- id, with that client's relying party; its transaction is the one of the request, or empty where
-- none is required and none was sent.
pub binding-IsResolved :
    (p : Authenticator) (metadata : Metadata) (required : Bool) (b : Binding)
    → binding p metadata required ≡ done b
    → IsResolved p metadata required b
unfolding binding
binding-IsResolved p metadata required b h =
    elim (Option-cases (single (values_of (txt "initiator_query_client_id") metadata))) [
      | inl lost ↦ absurd (ground (arith, lost))
      | inr (id, one) ↦ elim (Option-cases p.clients) [
        | inl lost ↦ absurd (ground (arith, one, lost))
        | inr (get_client, resolver) ↦
            let answered : of_client id (get_client id)
                  (values_of (txt "provider_ext_TransactionID") metadata) required
                ≡ done b =
              ground (arith, one, resolver) in
            let k = of_client-IsBound id (get_client id) _ required b answered in
            let (only, nonempty) =
              single_some (values_of (txt "initiator_query_client_id") metadata) id one in
            record {
              client_given = only ∙ ap (λ i. i ∷ []) k.given;
              client_nonempty = λ e. nonempty (k.given ∙ e);
              get_client = get_client;
              resolver = resolver;
              client = k.client;
              registered = ap get_client (sym k.given) ∙ k.registered;
              same_client = k.same ∙ k.given;
              party = k.party;
              party_nonempty = k.party_nonempty;
              transaction = k.transaction;
            }
      ]
    ]
