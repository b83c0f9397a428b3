-- ===== src/Web/Barcode.antt =====
-- MakeBarcode of membersys/barcode.go: the picture of an application's UUID as a decimal number.
use membersys.Base.{ℕ, ◌+◌, ◌*◌, true, false, Option, [], ◌∷◌, Text, Bytes, codes, is_empty}
use membersys.Decimal.{digits}
use membersys.Web.Handler.{
  Request, Handler, ◌>>=◌, ◌>>◌, stop_if, or_refuse, refuse, message, content_type, encoded, go,
}

-- The number that bytes stand for, the highest first: `bigint.SetBytes`.
abbrev pub be_value : ℕ → Bytes → ℕ
be_value acc [] = acc
be_value acc (b ∷ bs) = be_value (acc * 256 + b) bs

-- `bigint.String()` of the sixteen bytes of a UUID, which has at most 39 digits.
unfoldable pub uuid_number : Bytes → Text
uuid_number bytes = digits 39 (be_value 0 bytes) []

-- A picture that is sent: the UUID that the file is named after, and the scaled code.
pub record Picture (C : Type 0) : Type 0 where
  pub file_name : Text
  pub image : C

-- gocql.UUID with its parser and the methods Bytes and String, and code128.Encode and
-- barcode.Scale to 24 times the height, none for an error.
pub record Barcodes : Type 1 where
  pub Uuid : Type 0
  pub Image : Type 0
  pub parse_uuid : Text → Option Uuid
  pub uuid_bytes : Uuid → Bytes
  pub uuid_string : Uuid → Text
  pub encode : Text → Option Image
  pub scale : Image → Option Image

module _ {S : Type 0} (b : Barcodes) (req : Request) where
  -- png.Encode, whose failure is answered without an end of the handler.
  abbrev pub send_picture : Picture b.Image → Handler S (Picture b.Image) (Unit {0})
  send_picture p s = elim req.delivers [
    | true ↦ (content_type ∷ encoded p ∷ [], go tt, s)
    | false ↦ (content_type ∷ encoded p ∷ content_type ∷ message ∷ [], go tt, s)
  ]

  unfoldable pub make_barcode : Handler S (Picture b.Image) (Unit {0})
  make_barcode = do
    stop_if (is_empty (req.form (codes "id"))) (content_type ∷ refuse 404)
    uuid ← or_refuse (b.parse_uuid (req.form (codes "id"))) 500
    code ← or_refuse (b.encode (uuid_number (b.uuid_bytes uuid))) 500
    scaled ← or_refuse (b.scale code) 500
    send_picture (record { file_name = b.uuid_string uuid; image = scaled })
