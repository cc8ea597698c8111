-- ===== src/Applier/Packer.antt =====
-- internal/operator-controller/applier/secretpacker.go: the objects of a revision, packed into
-- secrets. A map is a list of its entries, the latest first.
pub mod Invariant
pub mod Refs
pub mod Contents
pub mod Covered
pub mod Loops
pub mod Packed
pub mod Failing
pub mod Resolved
use Prim.Native.String
use operator_controller.Prelude.{
  ℕ, ◌+◌, ◌*◌, zero, suc, String, List, [], ◌∷◌, ◌++◌, Option, none, some, Bool, Result, ok, err,
  ◌>>=◌, ◌==◌, ltb, leb, nat_eq, ◌&&◌, not, if◌then◌else◌, length, take, Ordering,
}
use operator_controller.Sort.{sort_stable}
use operator_controller.ObjectSet.{ObjectSourceRef, SpecObject, SpecPhase}

-- encoding/json, compress/gzip (the writer at the best compression), crypto/sha256,
-- encoding/base64 and the formatting of bytes
pub record EncodingApi : Type 1 where
  pub Object : Type 0
  pub marshal : Object → Option (List ℕ)
  pub gzip_data : List ℕ → Option (List ℕ)
  pub sum_256 : List ℕ → List ℕ
  pub raw_url_encode : List ℕ → String
  pub hex : List ℕ → String
  pub bytes_of : String → List ℕ

-- (phase index, object index)
abbrev pub Position : Type 0
Position = ℕ × ℕ

pub data PackError : Type 0 where
  serializing : Position → PackError
  compressing : Position → PackError
  exceeds_maximum : Position → PackError

-- an immutable `corev1.Secret` of the type for object data; its labels name revision and owner
pub record Secret : Type 0 where
  pub name : String
  pub namespace : String
  pub revision_name : String
  pub owner_name : String
  pub contents : List (String × List ℕ)

pub record SecretPacker : Type 0 where
  pub revision_name : String
  pub owner_name : String
  pub system_namespace : String

pub record PackResult : Type 0 where
  pub secrets : List Secret
  pub refs : List (Position × ObjectSourceRef)

-- the variables of `Pack`
pub record Packing : Type 0 where
  pub secrets : List Secret
  pub refs : List (Position × ObjectSourceRef)
  pub current_data : List (String × List ℕ)
  pub current_size : ℕ
  pub current_pending : List (Position × String)

abbrev pub empty_packing : Packing
empty_packing = record {
  secrets = [];
  refs = [];
  current_data = [];
  current_size = 0;
  current_pending = [];
}

abbrev pub max_secret_data_size : ℕ
max_secret_data_size = 900 * 1024

abbrev pub gzip_threshold : ℕ
gzip_threshold = 900 * 1024

-- the value of a key
abbrev pub lookup : {V : Type 0} → String → List (String × V) → Option V
lookup key [] = none
lookup key ((k, v) ∷ rest) = if k == key then some v else lookup key rest

abbrev pub lookup_ref : Position → List (Position × ObjectSourceRef) → Option ObjectSourceRef
lookup_ref pos [] = none
lookup_ref pos ((q, ref) ∷ rest) =
    if nat_eq q.0 pos.0 && nat_eq q.1 pos.1 then some ref else lookup_ref pos rest

abbrev is_present : {A : Type 0} → Option A → Bool
is_present none = Bool.false
is_present (some _) = Bool.true

abbrev keys : List (String × List ℕ) → List String
keys [] = []
keys ((k, _) ∷ rest) = k ∷ keys rest

module _ (x : EncodingApi) where
  open x use {Object}

  unfoldable pub content_hash : List ℕ → String
  content_hash data' = x.raw_url_encode (x.sum_256 data')

  abbrev value_bytes : Option (List ℕ) → List ℕ
  value_bytes none = []
  value_bytes (some bytes) = bytes

  -- what is written to the hash
  abbrev written : List (String × List ℕ) → List String → List ℕ
  written entries [] = []
  written entries (k ∷ ks) = x.bytes_of k ++ (value_bytes (lookup k entries) ++ written entries ks)

  -- what the loop stores for an object, or the error that it returns
  abbrev pub within_maximum : Position → List ℕ → Result PackError (List ℕ)
  within_maximum pos bytes =
      if ltb max_secret_data_size (length bytes) then err (exceeds_maximum pos) else ok bytes

  abbrev pub of_compressed : Position → Option (List ℕ) → Result PackError (List ℕ)
  of_compressed pos none = err (compressing pos)
  of_compressed pos (some bytes) = within_maximum pos bytes

  abbrev pub of_marshalled : Position → Option (List ℕ) → Result PackError (List ℕ)
  of_marshalled pos none = err (serializing pos)
  of_marshalled pos (some bytes) =
      if ltb gzip_threshold (length bytes)
      then of_compressed pos (x.gzip_data bytes)
      else within_maximum pos bytes

  unfoldable pub encode : Position → Object → Result PackError (List ℕ)
  encode pos o = of_marshalled pos (x.marshal o)

  module _ (p : SecretPacker) where
    unfoldable pub secret_name_from_data : List (String × List ℕ) → String
    secret_name_from_data entries =
        let sum = x.sum_256 (written entries (sort_stable String.compare (keys entries))) in
        String.◌++◌ p.revision_name (String.◌++◌ "-" (x.hex (take 8 sum)))

    unfoldable pub new_secret : List (String × List ℕ) → Secret
    new_secret entries = record {
      name = secret_name_from_data entries;
      namespace = p.system_namespace;
      revision_name = p.revision_name;
      owner_name = p.owner_name;
      contents = entries;
    }

    -- the refs of the objects in the secret
    unfoldable pub back_fill :
        Secret
        → List (Position × String)
        → List (Position × ObjectSourceRef)
        → List (Position × ObjectSourceRef)
    back_fill secret [] refs = refs
    back_fill secret ((pos, key) ∷ pending) refs =
        back_fill secret pending
          ((pos, record { name = secret.name; namespace = p.system_namespace; key = key }) ∷ refs)

    unfoldable pub finalize_current : Packing → Packing
    finalize_current st =
        let secret = new_secret st.current_data in
        if nat_eq (length st.current_data) 0 then st else record {
          secrets = st.secrets ++ secret ∷ [];
          refs = back_fill secret st.current_pending st.refs;
          current_data = [];
          current_size = 0;
          current_pending = [];
        }

    -- new content, in a new secret if the current one has no room for it
    unfoldable pub make_room : ℕ → Packing → Packing
    make_room size st =
        if ltb max_secret_data_size (st.current_size + size)
          && not (nat_eq (length st.current_data) 0)
        then finalize_current st
        else st

    abbrev pub add_data : String → List ℕ → Packing → Packing
    add_data key bytes st = record st {
      current_data = (key, bytes) ∷ st.current_data;
      current_size = st.current_size + length bytes;
    }

    unfoldable pub store_content : String → List ℕ → Packing → Packing
    store_content key bytes st =
        if is_present (lookup key st.current_data)
        then st
        else add_data key bytes (make_room (length bytes) st)

    abbrev pub add_pending : Position → String → Packing → Packing
    add_pending pos key st = record st { current_pending = st.current_pending ++ (pos, key) ∷ [] }

    unfoldable pub pack_bytes : Position → List ℕ → Packing → Packing
    pack_bytes pos bytes st =
        let key = content_hash bytes in add_pending pos key (store_content key bytes st)

    -- the body of the loops, which skips entries that are references
    abbrev pub pack_object : Position → Option Object → Packing → Result PackError Packing
    pack_object pos none st = ok st
    pack_object pos (some o) st = encode pos o >>= λ bytes. ok (pack_bytes pos bytes st)

    unfoldable pub objects_loop :
        ℕ → ℕ → List (SpecObject Object) → Packing → Result PackError Packing
    objects_loop i j [] st = ok st
    objects_loop i j (spec ∷ specs) st =
        pack_object (i, j) spec.object st >>= λ next. objects_loop i (suc j) specs next

    unfoldable pub phases_loop : ℕ → List (SpecPhase Object) → Packing → Result PackError Packing
    phases_loop i [] st = ok st
    phases_loop i (phase ∷ phases) st =
        objects_loop i 0 phase.objects st >>= λ next. phases_loop (suc i) phases next

    unfoldable pub close_packing : Packing → PackResult
    close_packing st =
        let last = finalize_current st in record { secrets = last.secrets; refs = last.refs }

    unfoldable pub pack : List (SpecPhase Object) → Result PackError PackResult
    pack phases = phases_loop 0 phases empty_packing >>= λ st. ok (close_packing st)
