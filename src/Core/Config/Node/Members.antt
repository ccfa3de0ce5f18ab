-- ===== src/Core/Config/Node/Members.antt =====
-- `validate_members` of crates/iron-core/src/config.rs: what it returns where it finds no error.
use iron_consensus.Prelude.{
  ℕ, ◌+◌, ◌≡◌, ◌≢◌, refl, sym, ap, ◌∙◌, ◌⊎◌, inl, inr, List, [], ◌∷◌, ◌++◌, Option, none, some,
  Result, ok, err, arith, Option-cases,
}
use iron_consensus.Order.{is_eq_iff, nat_ord, list_ord}
use iron_consensus.BTreeMap.{get, insert}
use iron_consensus.BTreeMap.Laws.{get-insert}
use iron_consensus.Core.Id.{NodeId, TextError, parse_node_id}
use iron_consensus.Core.Config.Node.Types.{Url, EndpointError, FieldPath, Issue, Problem}
use iron_consensus.Core.Config.Node.{
  problem, keep_or_note, Gathered, add_endpoint, add_member, gather, check_local, parse_endpoint,
}

pub snoc_nonempty : (xs : List Problem) (x : Problem) → xs ++ (x ∷ []) ≢ []
snoc_nonempty [] x h = ground arith
snoc_nonempty (y ∷ xs) x h = ground arith

pub append_empty : (xs ys : List Problem) → xs ++ ys ≡ [] → xs ≡ []
append_empty [] ys h = refl
append_empty (x ∷ xs) ys h = ground arith

pub keep_or_note-empty {ℓ κ} :
    {E : Type ℓ} {A : Type κ} (r : Result E A) (note : E → Problem) (es : List Problem)
    → (keep_or_note r note es).1 ≡ []
    → (es ≡ []) × ((a : A) → (keep_or_note r note es).0 ≡ some a → r ≡ ok a)
unfolding keep_or_note
keep_or_note-empty (ok v) note es h = (h, λ a same. ground arith)
keep_or_note-empty (err e) note es h = absurd (snoc_nonempty es (note e) h)

pub get_nothing : (n : NodeId) (u : Url) → get n [] ≢ some u
unfolding get
get_nothing n u h = ground arith

module _ {S : Type 0} (parse_address : List ℕ → Option S) (parse_url : List ℕ → Option Url) where
  abbrev pub Kept : Type 0
  Kept = Gathered parse_address parse_url

  -- Different members have different endpoints, all of which are recorded.
  pub record IsDistinct (g : Kept) : Type 0 where
    pub recorded : (n : NodeId) (u : Url) → get n g.members ≡ some u → get u.text g.endpoints ≢ none
    pub distinct :
        (n n' : NodeId) (u u' : Url)
        → get n g.members ≡ some u
        → get n' g.members ≡ some u'
        → u.text ≡ u'.text
        → n ≡ n'

  add_endpoint-err :
      (index : ℕ) (e : EndpointError) (g : Kept)
      → (add_endpoint parse_address parse_url index (err e) g).1.errors ≢ []
  unfolding add_endpoint
  add_endpoint-err index e g h = snoc_nonempty g.errors _ h

  -- An endpoint that adds no error is new.
  add_endpoint-new :
      (index : ℕ) (url : Url) (g : Kept)
      → (add_endpoint parse_address parse_url index (ok url) g).1.errors ≡ []
      → (g.errors ≡ []) × (get url.text g.endpoints ≡ none)
  unfolding add_endpoint
  add_endpoint-new index url g h = elim (Option-cases (get url.text g.endpoints)) [
    | inl absent ↦ ground arith
    | inr (i, present) ↦ absurd (
        snoc_nonempty g.errors (problem (FieldPath.member_endpoint index) Issue.duplicate_endpoint)
          (ground arith))
  ]

  -- A new member at a new endpoint.
  abbrev with_member : ℕ → NodeId → Url → Kept → Kept
  with_member index node url g = record g {
    members = insert node url g.members;
    endpoints = insert url.text index g.endpoints;
  }

  member-cases :
      (index : ℕ) (node : NodeId) (url : Url) (g : Kept) (n : NodeId) (u : Url)
      → get n (with_member index node url g).members ≡ some u
      → ((n ≡ node) × (u ≡ url)) ⊎ (get n g.members ≡ some u)
  member-cases index node url g n u h =
      ground (arith, get-insert n node url g.members, is_eq_iff n node)

  recorded_still :
      (index : ℕ) (text : List ℕ) (ends : List (List ℕ × ℕ)) (t : List ℕ)
      → (t ≡ text) ⊎ (get t ends ≢ none)
      → get t (insert text index ends) ≢ none
  recorded_still index text ends t h e =
      ground (arith, get-insert t text index ends, is_eq_iff t text)

  with_member-IsDistinct :
      (index : ℕ) (node : NodeId) (url : Url) (g : Kept)
      → IsDistinct g
      → get url.text g.endpoints ≡ none
      → IsDistinct (with_member index node url g)
  with_member-IsDistinct index node url g d new_text = record {
    recorded = λ n u h.
        recorded_still index url.text g.endpoints u.text
          (elim (member-cases index node url g n u h) [
            | inl (_, same) ↦ inl (ap (λ x. x.text) same)
            | inr before ↦ inr (d.recorded n u before)
          ]);
    distinct = λ n n' u u' h h' same. elim (member-cases index node url g n u h) [
      | inl (is_new, same_url) ↦ elim (member-cases index node url g n' u' h') [
        | inl (is_new', _) ↦ is_new ∙ sym is_new'
        | inr before' ↦ absurd (
            d.recorded n' u' before'
              (ap (λ t. get t g.endpoints) (sym same ∙ ap (λ x. x.text) same_url) ∙ new_text))
      ]
      | inr before ↦ elim (member-cases index node url g n' u' h') [
        | inl (is_new', same_url') ↦ absurd (
            d.recorded n u before
              (ap (λ t. get t g.endpoints) (same ∙ ap (λ x. x.text) same_url') ∙ new_text))
        | inr before' ↦ d.distinct n n' u u' before before' same
      ]
    ];
  }

  -- One round of the loop, with what the two parsers returned.
  abbrev round : ℕ → Result TextError NodeId → Result EndpointError Url → Kept → Kept
  round index node url g =
      let kept =
        keep_or_note node (λ e. problem (FieldPath.member_node_id index) Issue.invalid_node_id)
          g.errors in
      add_member parse_address parse_url kept.0
        (add_endpoint parse_address parse_url index url (record g { errors = kept.1 }))

  -- The loop's variables behind a member whose identifier is refused.
  abbrev noted : ℕ → Kept → Kept
  noted index g = record g {
    errors = g.errors ++ (problem (FieldPath.member_node_id index) Issue.invalid_node_id ∷ []);
  }

  -- What a round without errors did.
  round-IsDistinct :
      (index : ℕ) (node : Result TextError NodeId) (url : Result EndpointError Url) (g : Kept)
      → (round index node url g).errors ≡ []
      → (g.errors ≡ []) × (IsDistinct g → IsDistinct (round index node url g))
  unfolding keep_or_note add_member add_endpoint
  round-IsDistinct index (ok node) (ok url) g h =
      let (clean, new_text) = add_endpoint-new index url g h in
      (
        clean,
        λ d. record {
          recorded = (with_member-IsDistinct index node url g d new_text).recorded;
          distinct = (with_member-IsDistinct index node url g d new_text).distinct;
        },
      )
  round-IsDistinct index (ok node) (err e) g h = absurd (add_endpoint-err index e g h)
  round-IsDistinct index (err x) (ok url) g h =
      absurd (snoc_nonempty g.errors _ (add_endpoint-new index url (noted index g) h).0)
  round-IsDistinct index (err x) (err e) g h = absurd (add_endpoint-err index e (noted index g) h)

  pub gather-IsDistinct :
      (index : ℕ) (raw : List (List ℕ × List ℕ)) (g : Kept)
      → (gather parse_address parse_url index raw g).errors ≡ []
      → (g.errors ≡ []) × (IsDistinct g → IsDistinct (gather parse_address parse_url index raw g))
  unfolding gather
  gather-IsDistinct index [] g h = (h, λ d. d)
  gather-IsDistinct index ((raw_node, raw_endpoint) ∷ raw) g h =
      let (later, rest) = gather-IsDistinct (index + 1) raw _ h in
      let (clean, here) =
        round-IsDistinct index (parse_node_id raw_node)
          (parse_endpoint parse_address parse_url raw_endpoint) g later in
      (clean, λ d. rest (here d))

  check_local-some :
      (node : NodeId) (g : Kept)
      → check_local parse_address parse_url (some node) g ≡ []
      → (g.errors ≡ []) × ((url : Url) × (get node g.members ≡ some url))
  unfolding check_local
  check_local-some node g h = elim (Option-cases (get node g.members)) [
    | inr (url, present) ↦ (ground arith, (url, present))
    | inl absent ↦
        absurd (
          snoc_nonempty g.errors (problem FieldPath.members Issue.missing_local_node)
            (ground arith))
  ]

  pub local_is_there :
      (given : Option NodeId) (name : NodeId) (g : Kept)
      → given ≡ some name
      → check_local parse_address parse_url given g ≡ []
      → (g.errors ≡ []) × ((url : Url) × (get name g.members ≡ some url))
  local_is_there given name g here h =
      check_local-some name g (ap (λ x. check_local parse_address parse_url x g) (sym here) ∙ h)
