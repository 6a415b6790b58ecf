-- ===== src/Gateway/Store/Changes.antt =====
-- What a list of writes does to the key of one id, for either directory of keys.
use ai_base.Common.{
  String, ◌≡◌, refl, sym, ◌∙◌, ap, List, [], ◌∷◌, ◌++◌, Option, none, some, ◌===◌, arith, eq_iff,
  if◌then◌else◌,
}
use ai_base.Gateway.Store.{
  Secrets, secret, remove_secret, put_secret, Store, Write, write_secret, unlink_secret,
  write_mcp_secret, unlink_mcp_secret, apply, apply_all,
}

-- The new content of a key, `none` for no file.
abbrev pub Change : Type 0
Change = String × Option String

unfoldable pub after_changes : List Change → String → Option String → Option String
after_changes [] id key = key
after_changes ((k, content) ∷ rest) id key =
    after_changes rest id (if k === id then content else key)

abbrev pub changes : Write → List Change
changes (write_secret id key) = (id, some key) ∷ []
changes (unlink_secret id) = (id, none) ∷ []
changes _ = []

abbrev pub mcp_changes : Write → List Change
mcp_changes (write_mcp_secret id key) = (id, some key) ∷ []
mcp_changes (unlink_mcp_secret id) = (id, none) ∷ []
mcp_changes _ = []

unfoldable pub changes_of : (Write → List Change) → List Write → List Change
changes_of f [] = []
changes_of f (w ∷ ws) = f w ++ changes_of f ws

append_assoc-sym {ℓ} : {A : Type ℓ} (xs ys zs : List A) → xs ++ (ys ++ zs) ≡ (xs ++ ys) ++ zs
append_assoc-sym [] ys zs = refl
append_assoc-sym (x ∷ xs) ys zs = ap (λ l. x ∷ l) (append_assoc-sym xs ys zs)

pub changes_of-append :
    (f : Write → List Change) (ws vs : List Write)
    → changes_of f (ws ++ vs) ≡ changes_of f ws ++ changes_of f vs
unfolding changes_of
changes_of-append f [] vs = refl
changes_of-append f (w ∷ ws) vs =
    ap (λ l. f w ++ l) (changes_of-append f ws vs)
    ∙ append_assoc-sym (f w) (changes_of f ws) (changes_of f vs)

pub after_changes-append :
    (cs ds : List Change) (id : String) (key : Option String)
    → after_changes (cs ++ ds) id key ≡ after_changes ds id (after_changes cs id key)
unfolding after_changes
after_changes-append [] ds id key = refl
after_changes-append ((k, content) ∷ cs) ds id key =
    after_changes-append cs ds id (if k === id then content else key)

secret-remove_secret :
    (secrets : Secrets) (k id : String)
    → secret (remove_secret secrets k) id ≡ (if k === id then none else secret secrets id)
unfolding secret remove_secret
secret-remove_secret [] k id = ground arith
secret-remove_secret ((j, v) ∷ rest) k id =
    ground (arith, secret-remove_secret rest k id, eq_iff j k, eq_iff j id, eq_iff k id)

secret-put_secret :
    (secrets : Secrets) (k key id : String)
    → secret (put_secret secrets k key) id ≡ (if k === id then some key else secret secrets id)
unfolding secret
secret-put_secret secrets k key id = ground (arith, secret-remove_secret secrets k id)

secret-apply :
    (s : Store) (w : Write) (id : String)
    → secret (apply s w).secrets id ≡ after_changes (changes w) id (secret s.secrets id)
unfolding apply after_changes
secret-apply s (write_secret k key) id = secret-put_secret s.secrets k key id
secret-apply s (unlink_secret k) id = secret-remove_secret s.secrets k id
secret-apply s _ id = refl

mcp_secret-apply :
    (s : Store) (w : Write) (id : String)
    → secret (apply s w).mcp_secrets id ≡ after_changes (mcp_changes w) id (secret s.mcp_secrets id)
unfolding apply after_changes
mcp_secret-apply s (write_mcp_secret k key) id = secret-put_secret s.mcp_secrets k key id
mcp_secret-apply s (unlink_mcp_secret k) id = secret-remove_secret s.mcp_secrets k id
mcp_secret-apply s _ id = refl

-- The key of an id after the writes, from the changes that they make.
pub secret-apply_all :
    (s : Store) (ws : List Write) (id : String)
    → secret (apply_all s ws).secrets id
      ≡ after_changes (changes_of changes ws) id (secret s.secrets id)
unfolding apply_all changes_of
secret-apply_all s [] id = unfold after_changes in refl
secret-apply_all s (w ∷ ws) id =
    secret-apply_all (apply s w) ws id
    ∙ ap (after_changes (changes_of changes ws) id) (secret-apply s w id)
    ∙ sym (after_changes-append (changes w) (changes_of changes ws) id (secret s.secrets id))

pub mcp_secret-apply_all :
    (s : Store) (ws : List Write) (id : String)
    → secret (apply_all s ws).mcp_secrets id
      ≡ after_changes (changes_of mcp_changes ws) id (secret s.mcp_secrets id)
unfolding apply_all changes_of
mcp_secret-apply_all s [] id = unfold after_changes in refl
mcp_secret-apply_all s (w ∷ ws) id =
    mcp_secret-apply_all (apply s w) ws id
    ∙ ap (after_changes (changes_of mcp_changes ws) id) (mcp_secret-apply s w id)
    ∙ sym (
        after_changes-append (mcp_changes w) (changes_of mcp_changes ws) id
          (secret s.mcp_secrets id))

pub apply_all-append :
    (s : Store) (ws vs : List Write) → apply_all s (ws ++ vs) ≡ apply_all (apply_all s ws) vs
unfolding apply_all
apply_all-append s [] vs = refl
apply_all-append s (w ∷ ws) vs = apply_all-append (apply s w) ws vs
