-- ===== src/Gateway/Keys/Plan.antt =====
-- The plan for the keys, for either kind of draft: what the writes of a save do to each key.
use ai_base.Common.{
  String, ◌≡◌, refl, sym, ◌∙◌, ap, ◌≢◌, List, [], ◌∷◌, ◌++◌, map, Bool, true, false, Option, none,
  some, ◌===◌, arith, eq_refl, ===→≡, inl, inr, Bool-cases, if◌then◌else◌, ≢→===-false, All,
  AllDistinct, includes, includes-false→All,
}
use ai_base.Gateway.Managed.{is_some}
use ai_base.Gateway.Keys.{given_key, key_after}
use ai_base.Gateway.Store.Changes.{Change, after_changes, after_changes-append}

-- The id of a draft, `removeApiKey` and `apiKey`.
abbrev pub KeyDraft : Type 0
KeyDraft = String × Bool × Option String

abbrev pub draft_change : KeyDraft → List Change
draft_change (id, true, key) = (id, none) ∷ []
draft_change (id, false, key) = elim (given_key key) [ none ↦ [] | some k ↦ (id, some k) ∷ [] ]

abbrev pub draft_changes : List KeyDraft → List Change
draft_changes [] = []
draft_changes (d ∷ ds) = draft_change d ++ draft_changes ds

abbrev pub drop_changes : List String → List String → List Change
drop_changes retained [] = []
drop_changes retained (id ∷ ids) =
    (if includes retained id then [] else (id, none) ∷ []) ++ drop_changes retained ids

abbrev pub draft_ids : List KeyDraft → List String
draft_ids = map (λ d. d.0)

-- What a draft means for the key of its id.
abbrev pub key_of : KeyDraft → Option String → Option String
key_of (id, true, key) old = none
key_of (id, false, key) old = elim (given_key key) [ none ↦ old | some k ↦ some k ]

pub is_some-key_of :
    (d : KeyDraft) (old : Option String) → is_some (key_of d old) ≡ key_after d.1 d.2 (is_some old)
unfolding key_after
is_some-key_of (id, true, key) old = refl
is_some-key_of (id, false, none) old = refl
is_some-key_of (id, false, some key) old = ground arith

draft_change_self :
    (d : KeyDraft) (old : Option String) → after_changes (draft_change d) d.0 old ≡ key_of d old
unfolding after_changes
draft_change_self (id, true, key) old = rw eq_refl
draft_change_self (id, false, none) old = refl
draft_change_self (id, false, some key) old = ground (arith, eq_refl id)

draft_change_ne :
    (d : KeyDraft) (id : String) (old : Option String)
    → d.0 ≢ id
    → after_changes (draft_change d) id old ≡ old
unfolding after_changes
draft_change_ne (k, true, key) id old h = rw (≢→===-false k id h)
draft_change_ne (k, false, none) id old h = refl
draft_change_ne (k, false, some key) id old h = ground (arith, ≢→===-false k id h)

draft_changes_ne :
    (ds : List KeyDraft) (id : String) (old : Option String)
    → All (λ k. k ≢ id) (draft_ids ds)
    → after_changes (draft_changes ds) id old ≡ old
draft_changes_ne [] id old h = unfold after_changes in refl
draft_changes_ne (d ∷ ds) id old (p, h) =
    after_changes-append (draft_change d) (draft_changes ds) id old
    ∙ ap (after_changes (draft_changes ds) id) (draft_change_ne d id old p)
    ∙ draft_changes_ne ds id old h

abbrev pub SetsKey : List Change → KeyDraft → Type 0
SetsKey changes d = (old : Option String) → after_changes changes d.0 old ≡ key_of d old

sets_later :
    (d : KeyDraft) (ds rest : List KeyDraft)
    → All (λ k. k ≢ d.0) (draft_ids rest)
    → All (SetsKey (draft_changes ds)) rest
    → All (SetsKey (draft_changes (d ∷ ds))) rest
sets_later d ds [] h k = tt
sets_later d ds (e ∷ rest) (p, h) (q, k) = (
  λ old.
      after_changes-append (draft_change d) (draft_changes ds) e.0 old
      ∙ ap (after_changes (draft_changes ds) e.0) (draft_change_ne d e.0 old (λ s. p (sym s)))
      ∙ q old,
  sets_later d ds rest h k,
)

-- With distinct ids each draft decides the key of its own id.
draft_changes_self :
    (ds : List KeyDraft) → AllDistinct (draft_ids ds) → All (SetsKey (draft_changes ds)) ds
draft_changes_self [] h = tt
draft_changes_self (d ∷ ds) (new, h) = (
  λ old.
      after_changes-append (draft_change d) (draft_changes ds) d.0 old
      ∙ draft_changes_ne ds d.0 (after_changes (draft_change d) d.0 old) new
      ∙ draft_change_self d old,
  sets_later d ds ds new (draft_changes_self ds h),
)

drop_changes_retained :
    (retained ids : List String) (id : String) (old : Option String)
    → includes retained id ≡ true
    → after_changes (drop_changes retained ids) id old ≡ old
unfolding after_changes
drop_changes_retained retained [] id old h = refl
drop_changes_retained retained (k ∷ ids) id old h = elim (Bool-cases (includes retained k)) [
  | inl kept ↦ rw kept (drop_changes_retained retained ids id old h)
  | inr gone ↦ rw gone (
      rw (≢→===-false k id (λ e. cc (ap (includes retained) e)))
        (drop_changes_retained retained ids id old h))
]

drop_changes-none :
    (retained ids : List String) (id : String)
    → after_changes (drop_changes retained ids) id none ≡ none
unfolding after_changes
drop_changes-none retained [] id = refl
drop_changes-none retained (k ∷ ids) id = elim (Bool-cases (includes retained k)) [
  | inl kept ↦ rw kept (drop_changes-none retained ids id)
  | inr gone ↦ rw gone (ground (arith, drop_changes-none retained ids id))
]

drop_changes_gone :
    (retained ids : List String) (id : String) (old : Option String)
    → includes retained id ≡ false
    → includes ids id ≡ true
    → after_changes (drop_changes retained ids) id old ≡ none
unfolding after_changes includes
drop_changes_gone retained [] id old gone h = cc
drop_changes_gone retained (k ∷ ids) id old gone h = elim (Bool-cases (k === id)) [
  | inl same ↦
      let dropped : includes retained k ≡ false = ap (includes retained) (===→≡ k id same) ∙ gone in
      rw dropped (rw same (drop_changes-none retained ids id))
  | inr other ↦
      let rest = λ (o : Option String). drop_changes_gone retained ids id o gone (ground arith) in
      elim (Bool-cases (includes retained k)) [
        | inl kept ↦ rw kept (rest old)
        | inr dropped ↦ rw dropped (rw other (rest old))
      ]
]

-- All the changes of a save: the drafts' keys, then the keys of the entries that are gone.
abbrev pub save_changes : List KeyDraft → List String → List Change
save_changes ds previous = draft_changes ds ++ drop_changes (draft_ids ds) previous

All-retained :
    (cs : List Change) (retained previous : List String) (ds : List KeyDraft)
    → All (λ d. includes retained d.0 ≡ true) ds
    → All (SetsKey cs) ds
    → All (SetsKey (cs ++ drop_changes retained previous)) ds
All-retained cs retained previous [] h k = tt
All-retained cs retained previous (d ∷ ds) (p, h) (q, k) = (
  λ old.
      after_changes-append cs (drop_changes retained previous) d.0 old
      ∙ drop_changes_retained retained previous d.0 (after_changes cs d.0 old) p
      ∙ q old,
  All-retained cs retained previous ds h k,
)

All-includes-cons :
    (x : String) (xs : List String) (ds : List KeyDraft)
    → All (λ d. includes xs d.0 ≡ true) ds
    → All (λ d. includes (x ∷ xs) d.0 ≡ true) ds
unfolding includes
All-includes-cons x xs [] h = tt
All-includes-cons x xs (d ∷ ds) (p, h) = (ground arith, All-includes-cons x xs ds h)

All-included : (ds : List KeyDraft) → All (λ d. includes (draft_ids ds) d.0 ≡ true) ds
unfolding includes
All-included [] = tt
All-included (d ∷ ds) =
    (ground (arith, eq_refl d.0), All-includes-cons d.0 (draft_ids ds) ds (All-included ds))

-- After a save of drafts with distinct ids, each draft has the key that it means.
pub save_changes_self :
    (ds : List KeyDraft) (previous : List String)
    → AllDistinct (draft_ids ds)
    → All (SetsKey (save_changes ds previous)) ds
save_changes_self ds previous h =
    All-retained (draft_changes ds) (draft_ids ds) previous ds (All-included ds)
      (draft_changes_self ds h)

-- An id that is no draft's has no key after a save, if it was a previous entry's or had none.
pub save_changes_other :
    (ds : List KeyDraft) (previous : List String) (id : String) (old : Option String)
    → includes (draft_ids ds) id ≡ false
    → (includes previous id ≡ false → old ≡ none)
    → after_changes (save_changes ds previous) id old ≡ none
save_changes_other ds previous id old h k =
    after_changes-append (draft_changes ds) (drop_changes (draft_ids ds) previous) id old
    ∙ ap (after_changes (drop_changes (draft_ids ds) previous) id)
        (draft_changes_ne ds id old (includes-false→All (draft_ids ds) id h))
    ∙ elim (Bool-cases (includes previous id)) [
      | inl was ↦ drop_changes_gone (draft_ids ds) previous id old h was
      | inr new ↦
          ap (after_changes (drop_changes (draft_ids ds) previous) id) (k new)
          ∙ drop_changes-none (draft_ids ds) previous id
    ]
