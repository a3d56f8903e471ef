-- ===== src/SpaceStatus/Verifier.antt =====
-- spacestatus/changeverifier.go: the check of a deletion's payload and that of a space's header.
use any_sync_coordinator.Prelude.{
  ℕ, String, Bool, false, not, ◌&&◌, ◌||◌, Option, List, [], ◌∷◌, ℤ, pos, negsuc, ◌==◌, ◌=ₛ◌,
  if◌then◌else◌,
}
use Prim.Native.String.{◌++◌}
use any_sync_coordinator.Outcome.{text, unexpected, Result, ok, err}
use any_sync_coordinator.Docs.{Bytes}
use any_sync_coordinator.Docs.SpaceType
use any_sync_coordinator.Keys.{Keys}
use any_sync_coordinator.SpaceStatus.{StatusChange, tree, confirm, account, unknown}

-- The signed messages of any-sync: their fields, and below how they are decoded and checked.
pub record RawSpaceHeader : Type 0 where
  pub space_header : Bytes
  pub signature : Bytes

pub record SpaceHeader : Type 0 where
  pub space_type : String
  pub timestamp : ℤ
  pub space_header_payload : Bytes

pub record OneToOneInfo : Type 0 where
  pub owner : Bytes
  pub writers : List Bytes

-- What any-sync does with the payloads: decoding, and the validation of a deletion by its
-- identity, space, network or peer.
pub record Payloads (PubKey : Type 0) : Type 1 where
  pub Confirmation : Type 0
  pub verify_delete_change : Bytes → String → Option PubKey → String → Result (Unit {0})
  pub unmarshal_confirmation : Bytes → Result Confirmation
  pub validate_delete_confirmation :
      Option PubKey → String → String → Confirmation → Result (Unit {0})
  pub validate_account_delete_confirmation :
      Option PubKey → String → String → Confirmation → Result (Unit {0})
  pub unmarshal_raw_header : Bytes → Result RawSpaceHeader
  pub unmarshal_header : Bytes → Result SpaceHeader
  pub unmarshal_one_to_one : Bytes → Result OneToOneInfo

-- `if err != nil { return }` between calls that keep no state.
infixl 5 ◌then_try◌
abbrev pub ◌then_try◌ : {A B : Type 0} → Result A → (A → Result B) → Result B
ok a then_try f = f a
err e then_try f = err e

abbrev is_zero : ℤ → Bool
is_zero (pos n) = n == 0
is_zero (negsuc n) = false

-- The type of a space by its header.
unfoldable pub header_space_type : SpaceHeader → Result ℕ
header_space_type header =
    if header.space_type =ₛ "anytype.techspace"
    then ok SpaceType.tech
    else if header.space_type =ₛ "anytype.chatspace"
    then ok SpaceType.regular
    else if header.space_type =ₛ "anytype.onetoone"
    then ok SpaceType.one_to_one
    else if header.space_type =ₛ "" || header.space_type =ₛ "anytype.space"
    then ok (if is_zero header.timestamp then SpaceType.personal else SpaceType.regular)
    else err (text ("unknown space type: " ++ header.space_type))

module _ (k : Keys) (p : Payloads k.PubKey) where
  -- Verify, by the kind of payload.
  unfoldable pub verify_change : StatusChange k.PubKey → Result (Unit {0})
  verify_change c = elim c.deletion_payload_type [
    | tree ↦ p.verify_delete_change c.deletion_payload c.deletion_payload_id c.identity c.peer_id
    | confirm ↦ p.unmarshal_confirmation c.deletion_payload then_try λ sig.
        p.validate_delete_confirmation c.identity c.space_id c.network_id sig
    | account ↦ p.unmarshal_confirmation c.deletion_payload then_try λ sig.
        p.validate_account_delete_confirmation c.identity c.space_id c.network_id sig
    | unknown n ↦ err unexpected
  ]

  -- The signature of a header, checked with a key.
  abbrev pub matched : Bool → Result (Unit {0})
  matched b = if b then ok tt else err (text "space header signature mismatched")

  -- verifyHeaderSignature
  unfoldable pub verify_header_signature : k.PubKey → RawSpaceHeader → Result (Unit {0})
  verify_header_signature identity raw =
      k.verify identity raw.space_header raw.signature then_try matched

  -- The two writers of a one-to-one space, one of whom must be the identity.
  unfoldable pub verify_writers : k.PubKey → List Bytes → Result (Unit {0})
  verify_writers identity (a ∷ b ∷ []) = k.unmarshal_public_key a then_try λ writer0.
      k.unmarshal_public_key b then_try λ writer1.
      if not (k.equals identity writer0) && not (k.equals identity writer1)
      then err (text "verify oneToOne signature check: identity must be in one of the writers")
      else ok tt
  verify_writers identity _ =
      err (text "verify oneToOne signature check: oneToOne space should have exactly two writers")

  -- verifyHeaderSignatureOneToOne
  unfoldable pub verify_header_signature_one_to_one : k.PubKey → RawSpaceHeader → Result (Unit {0})
  verify_header_signature_one_to_one identity raw =
      p.unmarshal_header raw.space_header then_try λ header.
      p.unmarshal_one_to_one header.space_header_payload then_try λ info.
      k.unmarshal_public_key info.owner then_try λ owner.
      k.verify owner raw.space_header raw.signature then_try λ good.
      matched good then_try λ u. verify_writers identity info.writers

  -- VerifySpaceHeader
  unfoldable pub verify_space_header : k.PubKey → Bytes → Result ℕ
  verify_space_header identity header_bytes = p.unmarshal_raw_header header_bytes then_try λ raw.
      p.unmarshal_header raw.space_header then_try λ header.
      (if header.space_type =ₛ "anytype.onetoone"
        then verify_header_signature_one_to_one identity raw
        else verify_header_signature identity raw)
      then_try λ u. header_space_type header
