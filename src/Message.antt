-- ===== src/Message.antt =====
-- ffos/ota/src/ota/message: the messages to the home application, and the frame around them.
-- Text is written through a stringstream, so it is the concatenation of the pieces.
mod Tests
pub mod Frames
pub mod Delivery
use code_snippet.Common.{ℕ, List, [], ◌∷◌, ◌++◌, length, codes}
use code_snippet.Common.Decimal.{decimal}

-- `property_get` of the platform: the value of a key, or the default.
pub record Properties : Type 0 where
  pub get : List ℕ → List ℕ → List ℕ

-- The three fields of Message; `m_Event`, `m_Result`, `m_Version` and `m_Platform` are read only
-- while `m_Data` is built.
pub record Message : Type 0 where
  pub type : List ℕ
  pub data_ : List ℕ
  pub message : List ℕ

-- `"key":"value"`
abbrev pub quoted : List ℕ → List ℕ
quoted text = b'"' ∷ (text ++ b'"' ∷ [])

abbrev pub comma : List ℕ
comma = b',' ∷ b' ' ∷ []

-- The object that Message::JoinElements puts into the frame.
unfoldable pub body : List ℕ → List ℕ → List ℕ
body type data_ =
    b'{'
    ∷ (quoted (codes "type")
        ++ (b':'
            ∷ (quoted type ++ (comma ++ (quoted (codes "data") ++ (b':' ∷ (data_ ++ b'}' ∷ [])))))))

-- The size, a colon, and the text.
unfoldable pub frame : List ℕ → List ℕ
frame msg = decimal (length msg) ++ b':' ∷ msg

unfoldable pub join_elements : List ℕ → List ℕ → Message
unfolding body frame
join_elements type data_ = record { type = type; data_ = data_; message = frame (body type data_) }

-- SystemProperty::GetProperty copies into a zeroed array of 256 bytes; a value has at most 91.
module _ (properties : Properties) where
  abbrev product_version : List ℕ
  product_version = properties.get (codes "ro.product.version") (codes "unknow version")

  abbrev product_platform : List ℕ
  product_platform = properties.get (codes "ro.product.platform") (codes "unknow platform")

  abbrev version_and_platform : List ℕ
  version_and_platform =
      quoted (codes "version")
      ++ (b':'
          ∷ (quoted product_version
              ++ (comma
                  ++ (quoted (codes "platform")
                      ++ (b':' ∷ (quoted product_platform ++ b'}' ∷ []))))))

  -- OtaMessage::Init
  unfoldable pub ota_data : List ℕ → List ℕ → List ℕ
  ota_data event result =
      b'{'
      ∷ (quoted (codes "event")
          ++ (b':'
              ∷ (quoted event
                  ++ (comma
                      ++ (quoted (codes "result")
                          ++ (b':' ∷ (quoted result ++ (comma ++ version_and_platform))))))))

  unfoldable pub ota_message : List ℕ → List ℕ → Message
  unfolding ota_data join_elements
  ota_message event result = join_elements (codes "OTA_UPDATE") (ota_data event result)

  -- SystemMessage::Init
  unfoldable pub system_data : List ℕ
  system_data = b'{' ∷ version_and_platform

  unfoldable pub system_message : Message
  unfolding system_data join_elements
  system_message = join_elements (codes "SYSTEM_STATUS") system_data
