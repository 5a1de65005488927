-- ===== src/Payouts/Methods.antt =====
-- The payout methods of a user: `create`, `delete` and `setDefault` of
-- apps/api/src/wallet/payout-methods.service.ts. Labels are not modelled.
use vintage.Prelude.{
  ℕ, Bool, true, false, Option, none, some, [], ◌∷◌, not, ◌==◌, ◌&&◌, ◌||◌, leb, length,
  if◌then◌else◌,
}
use vintage.Prelude.Dict.{Dict, rows_where, any_row, remove, map_rows}
use vintage.World.{World, PayoutMethod, Effect}
use vintage.World.Action.{
  Action, Exception, ◌>>=◌, ◌>>◌, gets, or_throw, throw_if, when, with_some, transaction, emit,
  modify,
}
use vintage.World.Tables.{methods, find_unique, update, create}
use vintage.Validation.{Text}
use vintage.Validation.Pix.{PixKeyType, normalise_pix_key, is_valid_pix_key}

-- MAX_METHODS_PER_USER.
abbrev pub max_methods_per_user : ℕ
max_methods_per_user = 5

abbrev type_rank : PixKeyType → ℕ
type_rank PixKeyType.pix_cpf = 0
type_rank PixKeyType.pix_cnpj = 1
type_rank PixKeyType.pix_email = 2
type_rank PixKeyType.pix_phone = 3
type_rank PixKeyType.pix_random = 4

abbrev pub same_text : Text → Text → Bool
same_text [] [] = true
same_text (c ∷ s) (d ∷ t) = let rest = same_text s t in c == d && rest
same_text _ _ = false

abbrev pub owned_count : ℕ → World → ℕ
owned_count user w = length (rows_where (λ k m. m.user == user) w.methods)

-- `findUnique` by `userId_type_pixKey`.
abbrev pub has_method : ℕ → PixKeyType → Text → World → Bool
has_method user type key w =
    any_row (λ m. m.user == user && (type_rank m.type == type_rank type && same_text m.pix_key key))
      w.methods

-- `updateMany` of the defaults of the user, all but one where an id is given.
abbrev pub is_other_default : ℕ → Option ℕ → ℕ → PayoutMethod → Bool
is_other_default user none k m = m.user == user && m.is_default
is_other_default user (some id) k m = m.user == user && (m.is_default && not (k == id))

unfoldable pub demote_defaults : ℕ → Option ℕ → Action (Unit {0})
unfolding modify
demote_defaults user but = modify (λ w. record w {
  methods = map_rows (is_other_default user but) (λ m. record m { is_default = false }) w.methods;
})

abbrev pub new_method : ℕ → PixKeyType → Text → Bool → ℕ → PayoutMethod
new_method user type key is_default now = record {
  user = user;
  type = type;
  pix_key = key;
  is_default = is_default;
  created_at = now;
}

unfoldable pub create_method_tx : ℕ → PixKeyType → Text → Bool → Action ℕ
create_method_tx user type canonical is_default = do
  count ← gets (owned_count user)
  throw_if (leb max_methods_per_user count) Exception.bad_request
  taken ← gets (has_method user type canonical)
  throw_if taken Exception.conflict
  when (is_default || count == 0) (demote_defaults user none)
  now ← gets (λ w. w.now)
  create methods (new_method user type canonical (is_default || count == 0) now)

-- `create`.
unfoldable pub create_method : (Text → Text) → ℕ → PixKeyType → Text → Bool → Action ℕ
create_method lower user type raw is_default = do
  throw_if (not (is_valid_pix_key type (normalise_pix_key lower type raw))) Exception.bad_request
  transaction (create_method_tx user type (normalise_pix_key lower type raw) is_default)

-- The method of the user that was created last.
abbrev later_method : ℕ × PayoutMethod → Option (ℕ × PayoutMethod) → Option (ℕ × PayoutMethod)
later_method m none = some m
later_method m (some n) = if leb (n.1).created_at (m.1).created_at then some m else some n

abbrev pub last_method : Dict PayoutMethod → Option (ℕ × PayoutMethod)
last_method [] = none
last_method (m ∷ d) = later_method m (last_method d)

unfoldable pub remove_method : ℕ → Action (Unit {0})
unfolding modify
remove_method id = modify (λ w. record w { methods = remove id w.methods })

unfoldable pub make_default : ℕ → Action (Unit {0})
make_default id = update methods id (λ m. record m { is_default = true })

-- `delete`.
unfoldable pub delete_method : ℕ → ℕ → Action (Unit {0})
delete_method user id = do
  transaction (do
    m ← or_throw (← find_unique methods id) Exception.not_found
    throw_if (not (m.user == user)) Exception.not_found
    remove_method id
    when m.is_default (do
      next ← gets (λ w. last_method (rows_where (λ k x. x.user == user) w.methods))
      with_some next (λ n. make_default n.0)))
  emit (Effect.audit id)

-- `setDefault`.
unfoldable pub set_default : ℕ → ℕ → Action (Unit {0})
set_default user id = transaction (do
  m ← or_throw (← find_unique methods id) Exception.not_found
  throw_if (not (m.user == user)) Exception.not_found
  demote_defaults user (some id)
  make_default id)
