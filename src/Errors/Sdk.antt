-- ===== src/Errors/Sdk.antt =====
-- pkg/errors/errors.go: structured errors with a code and a message.
use go_builder_relayer_clien.Prelude.{Bool, ◌++◌, Text, codes, text_eq}
use go_builder_relayer_clien.Errors.Codes.{ErrorCode}

pub record SdkError : Type 0 where
  pub code : ErrorCode
  pub text : Text

abbrev pub new_error : ErrorCode → Text → SdkError
new_error c t = record { code = c; text = t }

-- (*SDKError).Error
unfoldable pub sdk_message : SdkError → Text
sdk_message e = codes "[" ++ (e.code ++ (codes "] " ++ e.text))

-- (*SDKError).Is, of a target that is an SDKError
unfoldable pub sdk_is : SdkError → SdkError → Bool
unfolding text_eq
sdk_is e target = text_eq e.code target.code
