-- ===== src/Framed.antt =====
-- src/async_device/async_framed.rs: a device as a stream and a sink of frames, on Linux. A poll takes
-- and returns the state of the device, and `cx` has no part in the model.
pub mod Splitter
pub mod Read
pub mod Arena
pub mod Write
pub mod Whole
mod Tests
mod SinkTests
use tun_rs.Base.{
  ℕ, ◌≡◌, ◌++◌, if◌then◌else◌, true, false, Bool, List, [], ◌∷◌, ◌⊎◌, inl, inr, Option, none, some,
  replicate, IoError, bytes_remaining,
}
use tun_rs.Gro.{ExpandBuffer}

-- `Poll<T>`.
pub data Poll {ℓ} (A : Type ℓ) : Type ℓ where
  ready : A → Poll A
  pending : Poll A

-- The trait `Decoder` without its default method: `decode` answers, and leaves the buffer and itself.
-- `from_io` is `Error: From<io::Error>`.
pub record Decoder (C : Type 0) (Item : Type 0) (Error : Type 0) : Type 0 where
  pub decode : C → List ℕ → (Option Item ⊎ Error) × List ℕ × C
  pub from_io : IoError → Error

-- The trait `Encoder`: `encode` answers none for `Ok(())`.
pub record Encoder (C : Type 0) (Item : Type 0) (Error : Type 0) : Type 0 where
  pub encode : C → Item → List ℕ → Option Error × List ℕ × C
  pub from_io : IoError → Error

-- `buf.is_empty()`.
abbrev pub is_empty : {A : Type 0} → List A → Bool
is_empty [] = true
is_empty (x ∷ xs) = false

-- `decode_eof`.
unfoldable pub decode_eof :
    {C Item Error : Type 0} → Decoder C Item Error → C → List ℕ → (Option Item ⊎ Error) × List ℕ × C
decode_eof d codec buf =
    let (answer, rest, codec1) = d.decode codec buf in
    elim answer [
      | inl (some frame) ↦ (inl (some frame), rest, codec1)
      | inl none ↦
          (if is_empty rest then inl none else inr (d.from_io bytes_remaining), rest, codec1)
      | inr error ↦ (inr error, rest, codec1)
    ]

-- `BytesCodec`, whose frames are the packets themselves.
abbrev pub bytes_codec_decoder : Decoder Unit (List ℕ) IoError
bytes_codec_decoder = record {
  decode = λ codec buf. (inl (if is_empty buf then none else some buf), [], codec);
  from_io = λ error. error;
}

abbrev pub bytes_codec_encoder : Encoder Unit (List ℕ) IoError
bytes_codec_encoder = record {
  encode = λ codec data' buf. (none, buf ++ data', codec);
  from_io = λ error. error;
}

-- `BytesMut`: a buffer that can be expanded, emptied, and given room. `store b bytes` is the buffer
-- when `bytes` is what it has been made to hold.
pub record BytesMut (B : Type 0) : Type 0 where
  pub expand : ExpandBuffer B
  pub clear : B → B
  pub reserve : B → ℕ → B
  pub with_capacity : ℕ → B
  pub store : B → List ℕ → B

-- What these are documented to do to the bytes.
pub record IsBytesMut {B : Type 0} (b : BytesMut B) : Type 0 where
  pub as_ref-clear : (x : B) → b.expand.as_ref (b.clear x) ≡ []
  pub as_ref-reserve : (x : B) (n : ℕ) → b.expand.as_ref (b.reserve x n) ≡ b.expand.as_ref x
  pub as_ref-with_capacity : (n : ℕ) → b.expand.as_ref (b.with_capacity n) ≡ []
  pub as_ref-store : (x : B) (bytes : List ℕ) → b.expand.as_ref (b.store x bytes) ≡ bytes
