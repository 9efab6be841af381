-- ===== src/Tests/Documents.antt =====
-- A sample JSON type, and keys and hashes that parse.
use svm_wasi_core.Base.{
  ℕ, Bool, true, false, Option, none, some, String, List, [], ◌∷◌, get_elem?, if◌then◌else◌, ok,
}
use svm_wasi_core.Base.Int.{ℤ, pos, negsuc}
use svm_wasi_core.Base.Search.{bytes_eq}
use svm_wasi_core.Shaping.Strings.{codes}
use svm_wasi_core.Rpc.Values.{Json, Codecs}
use svm_wasi_core.Tests.Vectors.{Vec, vec_of}

mutual
  pub data Document : Type 0 where
    null : Document
    boolean : Bool → Document
    number : ℕ → Document
    -- One less than the negative of the number.
    negative : ℕ → Document
    string : String → Document
    array : Documents → Document
    object : Members → Document

  pub data Documents : Type 0 where
    nil : Documents
    cons : Document → Documents → Documents

  pub data Members : Type 0 where
    end : Members
    member : String → Document → Members → Members

abbrev list_documents : Documents → List Document
list_documents nil = []
list_documents (cons d ds) = d ∷ list_documents ds

abbrev documents : List Document → Documents
documents [] = nil
documents (d ∷ ds) = cons d (documents ds)

abbrev members : List (String × Document) → Members
members [] = end
members ((k, d) ∷ ms) = member k d (members ms)

abbrev find : Members → String → Option Document
find end field = none
find (member k d ms) field = if bytes_eq (codes k) (codes field) then some d else find ms field

abbrev get_document : Document → String → Option Document
get_document (object ms) field = find ms field
get_document null field = none
get_document (boolean b) field = none
get_document (number n) field = none
get_document (negative n) field = none
get_document (string s) field = none
get_document (array ds) field = none

abbrev array_document : Document → Option (List Document)
array_document (array ds) = some (list_documents ds)
array_document null = none
array_document (boolean b) = none
array_document (number n) = none
array_document (negative n) = none
array_document (string s) = none
array_document (object ms) = none

abbrev string_document : Document → Option String
string_document (string s) = some s
string_document null = none
string_document (boolean b) = none
string_document (number n) = none
string_document (negative n) = none
string_document (array ds) = none
string_document (object ms) = none

abbrev number_document : Document → Option ℕ
number_document (number n) = some n
number_document null = none
number_document (boolean b) = none
number_document (negative n) = none
number_document (string s) = none
number_document (array ds) = none
number_document (object ms) = none

abbrev integer_document : Document → Option ℤ
integer_document (number n) = some (pos n)
integer_document (negative n) = some (negsuc n)
integer_document null = none
integer_document (boolean b) = none
integer_document (string s) = none
integer_document (array ds) = none
integer_document (object ms) = none

abbrev boolean_document : Document → Option Bool
boolean_document (boolean b) = some b
boolean_document null = none
boolean_document (number n) = none
boolean_document (negative n) = none
boolean_document (string s) = none
boolean_document (array ds) = none
boolean_document (object ms) = none

abbrev null_document : Document → Bool
null_document null = true
null_document (boolean b) = false
null_document (number n) = false
null_document (negative n) = false
null_document (string s) = false
null_document (array ds) = false
null_document (object ms) = false

abbrev pub sample_json : Json
sample_json = record {
  Value = Document;
  Float = ℕ;
  get = get_document;
  get_index = λ d i. elim (array_document d) [ none ↦ none | some ds ↦ get_elem? ds i ];
  as_str = string_document;
  as_u64 = number_document;
  as_i64 = integer_document;
  as_f64 = number_document;
  as_bool = boolean_document;
  as_array = array_document;
  is_null = null_document;
  json_string = string;
  json_number = number;
  json_bool = boolean;
  json_array = λ ds. array (documents ds);
  json_object = λ ms. object (members ms);
}

-- A key is printed as one text, and every text is the key of its codes.
abbrev pub sample_codecs : Codecs (Vec 32) (Vec 32)
sample_codecs = record {
  key_from_str = λ s. ok (vec_of 32 (codes s));
  key_to_string = λ k. "key";
  hash_from_str = λ s. ok (vec_of 32 (codes s));
  base64_decode = λ s. ok (codes s);
}

-- `json!` of an integer
abbrev pub integer : ℤ → Document
integer (pos n) = number n
integer (negsuc n) = negative n
