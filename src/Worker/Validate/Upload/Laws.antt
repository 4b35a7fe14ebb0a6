-- ===== src/Worker/Validate/Upload/Laws.antt =====
-- Exactly which bodies `parseUploadRequest` accepts, and as what.
use newell_ai.Common.{codes, some, true, [], ◌≡◌, refl, ◌∙◌}
use newell_ai.Contracts.{ConversationMetadata, CaptureMetadata}
use newell_ai.Value.{Value, field, is_plain_object}
use newell_ai.Worker.Validate.{clean, joined}
use newell_ai.Worker.Validate.Laws.{
  joined-nil, object_or_lem, object_or_of_object, IsText, IsOptionalText, expect_string_of_IsText,
  expect_string-IsText, expect_optional_string_of_IsOptionalText,
  expect_optional_string-IsOptionalText,
}
use newell_ai.Worker.Validate.Upload.{
  conversation_fields, capture_fields, parse_conversation, parse_capture,
}

-- The value is the object that spells the conversation; other properties do not matter.
pub record IsConversation (v : Value) (c : ConversationMetadata) : Type 0 where
  pub object : is_plain_object v ≡ true
  pub conversation_id : IsText (field (codes "conversation_id") v) c.conversation_id
  pub user_id : IsText (field (codes "user_id") v) c.user_id
  pub title : IsOptionalText (field (codes "title") v) c.title
  pub source_model : IsOptionalText (field (codes "source_model") v) c.source_model
  pub started_at : IsOptionalText (field (codes "started_at") v) c.started_at

pub record IsCapture (v : Value) (c : CaptureMetadata) : Type 0 where
  pub object : is_plain_object v ≡ true
  pub capture_client : IsText (field (codes "capture_client") v) c.capture_client
  pub version : IsOptionalText (field (codes "capture_client_version") v) c.capture_client_version
  pub surface : IsOptionalText (field (codes "surface") v) c.surface
  pub batch : IsOptionalText (field (codes "captured_batch_id") v) c.captured_batch_id

conversation_fields_of_IsConversation :
    (v : Value) (c : ConversationMetadata)
    → IsConversation v c
    → conversation_fields v ≡ clean (some c)
unfolding joined
conversation_fields_of_IsConversation v c h =
    rw
      (
        expect_string_of_IsText _ _ (codes "conversation.conversation_id") h.conversation_id,
        expect_string_of_IsText _ _ (codes "conversation.user_id") h.user_id,
        expect_optional_string_of_IsOptionalText _ _ (codes "conversation.title") h.title,
        expect_optional_string_of_IsOptionalText _ _ (codes "conversation.source_model")
            h.source_model,
        expect_optional_string_of_IsOptionalText _ _ (codes "conversation.started_at") h.started_at,
      )
      refl

pub parse_conversation_of_IsConversation :
    (v : Value) (c : ConversationMetadata)
    → IsConversation v c
    → parse_conversation v ≡ clean (some c)
unfolding parse_conversation
parse_conversation_of_IsConversation v c h =
    object_or_of_object v _ _ h.object ∙ conversation_fields_of_IsConversation v c h

pub parse_conversation-IsConversation :
    (v : Value)
    → (parse_conversation v).issues ≡ []
    → (c : ConversationMetadata) × ((parse_conversation v).value ≡ some c) × IsConversation v c
unfolding parse_conversation
parse_conversation-IsConversation v h =
    let (object, all, same) = object_or_lem v _ (conversation_fields v) h in
    let (h1, (h2, (h3, (h4, (h5, rest))))) = joined-nil _ all in
    let (id, is_id, e1) = expect_string-IsText _ _ h1 in
    let (account, is_account, e2) = expect_string-IsText _ _ h2 in
    (
      _,
      rw (same, e1, e2) refl,
      record {
        object = object;
        conversation_id = is_id;
        user_id = is_account;
        title = expect_optional_string-IsOptionalText _ _ h3;
        source_model = expect_optional_string-IsOptionalText _ _ h4;
        started_at = expect_optional_string-IsOptionalText _ _ h5;
      },
    )

capture_fields_of_IsCapture :
    (v : Value) (c : CaptureMetadata) → IsCapture v c → capture_fields v ≡ clean (some c)
unfolding joined
capture_fields_of_IsCapture v c h =
    rw
      (
        expect_string_of_IsText _ _ (codes "capture.capture_client") h.capture_client,
        expect_optional_string_of_IsOptionalText _ _ (codes "capture.capture_client_version")
            h.version,
        expect_optional_string_of_IsOptionalText _ _ (codes "capture.surface") h.surface,
        expect_optional_string_of_IsOptionalText _ _ (codes "capture.captured_batch_id") h.batch,
      )
      refl

pub parse_capture_of_IsCapture :
    (v : Value) (c : CaptureMetadata) → IsCapture v c → parse_capture v ≡ clean (some c)
unfolding parse_capture
parse_capture_of_IsCapture v c h =
    object_or_of_object v _ _ h.object ∙ capture_fields_of_IsCapture v c h

pub parse_capture-IsCapture :
    (v : Value)
    → (parse_capture v).issues ≡ []
    → (c : CaptureMetadata) × ((parse_capture v).value ≡ some c) × IsCapture v c
unfolding parse_capture
parse_capture-IsCapture v h =
    let (object, all, same) = object_or_lem v _ (capture_fields v) h in
    let (h1, (h2, (h3, (h4, rest)))) = joined-nil _ all in
    let (client, is_client, e1) = expect_string-IsText _ _ h1 in
    (
      _,
      rw (same, e1) refl,
      record {
        object = object;
        capture_client = is_client;
        version = expect_optional_string-IsOptionalText _ _ h2;
        surface = expect_optional_string-IsOptionalText _ _ h3;
        batch = expect_optional_string-IsOptionalText _ _ h4;
      },
    )
