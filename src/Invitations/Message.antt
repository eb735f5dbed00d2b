-- ===== src/Invitations/Message.antt =====
-- The canonical message of an invitation
-- (`canonicalize_invitation_message` of apps/api/app/services/invitation_sending.py).
use buddy_web_ver.Base.{ℕ, ◌≤◌, ◌≡◌, ◌↔◌, ◌∙◌, sym, true, ltb, arith, length, text_eq_refl}
use buddy_web_ver.Errors.{InvitationSendReason, send_error, Result, ok, ◌>>◌, raise_if, is_ok}
use buddy_web_ver.Text.{Text, strip, word_count, split}
use buddy_web_ver.Text.Strip.{strip-strip, btrim-strip}
use buddy_web_ver.Text.Words.{word_count-split, word_count-strip}
use buddy_web_ver.Models.Invitation.{
  message_canonical, max_invitation_message_code_points, validate_message,
}

abbrev pub max_invitation_message_words : ℕ
max_invitation_message_words = 500

pub record CanonicalInvitationMessage : Type 0 where
  pub value : Text
  pub words : ℕ
  pub code_points : ℕ

unfoldable pub canonicalize_invitation_message : Text → Result CanonicalInvitationMessage
canonicalize_invitation_message message = do
  let canonical = strip message
  let code_point_count = length canonical
  raise_if (ltb max_invitation_message_code_points code_point_count)
      (send_error InvitationSendReason.message_too_many_code_points)
  let count = word_count canonical
  raise_if (ltb max_invitation_message_words count)
      (send_error InvitationSendReason.message_too_many_words)
  ok (record { value = canonical; words = count; code_points = code_point_count })

-- A message is accepted exactly if, without the white space around it, it has at most 10,000 code
-- points, and if `split` finds at most 500 words in it.
pub canonicalize_accepts :
    (message : Text)
    → (is_ok (canonicalize_invitation_message message) ≡ true) ↔ (
        (length (strip message) ≤ max_invitation_message_code_points)
        × (length (split message) ≤ max_invitation_message_words))
unfolding canonicalize_invitation_message
canonicalize_accepts message =
    let words = sym (word_count-strip message ∙ word_count-split message) in
    (λ h. ground (arith, words), λ h. ground (arith, words))

canonicalize_result :
    (message : Text) (c : CanonicalInvitationMessage)
    → canonicalize_invitation_message message ≡ ok c
    → (c ≡ record {
      value = strip message;
      words = word_count (strip message);
      code_points = length (strip message);
    })
      × (length (strip message) ≤ max_invitation_message_code_points)
      × (word_count (strip message) ≤ max_invitation_message_words)
unfolding canonicalize_invitation_message
canonicalize_result message c h = ground arith

-- A canonical message is one already: it is canonicalized to itself with the same counts, the
-- model's validator keeps it, and it meets the table's check constraint.
pub canonicalize_stable :
    (message : Text) (c : CanonicalInvitationMessage)
    → canonicalize_invitation_message message ≡ ok c
    → (canonicalize_invitation_message c.value ≡ ok c)
      × (validate_message c.value ≡ ok c.value)
      × (message_canonical c.value ≡ true)
      × (c.words ≡ length (split message))
unfolding canonicalize_invitation_message validate_message
canonicalize_stable message c h =
    let (e, few_points, few_words) = canonicalize_result message c h in
    let again = strip-strip message in
    rw (e, again)
      (
        ground arith,
        ground arith,
        rw (btrim-strip message, text_eq_refl (strip message)) (ground arith),
        word_count-strip message ∙ word_count-split message,
      )
