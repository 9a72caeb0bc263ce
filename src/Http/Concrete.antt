-- ===== src/Http/Concrete.antt =====
-- Header maps and metadata as lists: instances of the interfaces, for the examples.
use grpc_gateway_rust.Prelude.{
  ◌≡◌, refl, Option, none, some, List, [], ◌∷◌, Str, str_eq, str_eq_iff, if◌then◌else◌, is_empty,
  to_lowercase, leb, ltb, ◌&&◌, true, arith,
}
use grpc_gateway_rust.Http.{HeaderApi, one_value, values_of, MetadataApi, MetadataEntry}

abbrev pub remove : Str → List (Str × Str) → List (Str × Str)
remove k [] = []
remove k ((j, v) ∷ es) = let rest = remove k es in if str_eq j k then rest else (j, v) ∷ rest

pub values_of-remove :
    (k j : Str) (es : List (Str × Str))
    → values_of j (remove k es) ≡ (if str_eq k j then [] else values_of j es)
values_of-remove k j [] = ground arith
values_of-remove k j ((i, v) ∷ es) =
    ground (arith, str_eq_iff k j, str_eq_iff i k, str_eq_iff i j, values_of-remove k j es)

pub values_of-insert :
    (k j v : Str) (es : List (Str × Str))
    → values_of j ((k, v) ∷ remove k es) ≡ (if str_eq k j then one_value v else values_of j es)
values_of-insert k j v es = ground (arith, values_of-remove k j es)

pub normalised : (s t : Str) → some (to_lowercase s) ≡ some t → t ≡ to_lowercase s
normalised s t h = cc h

abbrev pub list_headers : HeaderApi
list_headers = record {
  Headers = List (Str × Str);
  no_headers = [];
  entries = λ h. h;
  get_all = values_of;
  insert_header = λ k v h. (k, v) ∷ remove k h;
  remove_header = remove;
  parse_name = λ s. some (to_lowercase s);
  to_str = λ v. some v;
  from_u16 = λ c. if leb 100 c && ltb c 1000 then some c else none;
  get_all-no_headers = λ k. refl;
  get_all-insert_header = values_of-insert;
  get_all-remove_header = values_of-remove;
  parse_name-to_lowercase = normalised;
  from_u16_range = λ c. refl;
  get_all-entries = λ k h. refl;
}

abbrev pub get_first : Str → List MetadataEntry → Option Str
get_first k [] = none
get_first k (e ∷ es) = let rest = get_first k es in if str_eq e.key k then some e.value else rest

abbrev pub remove_entry : Str → List MetadataEntry → List MetadataEntry
remove_entry k [] = []
remove_entry k (e ∷ es) = let rest = remove_entry k es in if str_eq e.key k then rest else e ∷ rest

pub get_first-remove_entry :
    (j k : Str) (es : List MetadataEntry)
    → get_first j (remove_entry k es) ≡ (if str_eq k j then none else get_first j es)
get_first-remove_entry j k [] = ground arith
get_first-remove_entry j k (e ∷ es) =
    ground
      (arith, str_eq_iff k j, str_eq_iff e.key k, str_eq_iff e.key j, get_first-remove_entry j k es)

pub get_first-insert :
    (k : Str) (e : MetadataEntry) (es : List MetadataEntry)
    → get_first k (e ∷ remove_entry e.key es)
      ≡ (if str_eq e.key k then some e.value else get_first k es)
get_first-insert k e es = ground (arith, get_first-remove_entry k e.key es)

pub is_empty-nil : (es : List MetadataEntry) → is_empty es ≡ true → es ≡ []
is_empty-nil [] h = refl
is_empty-nil (e ∷ es) h = cc

abbrev pub list_metadata : MetadataApi
list_metadata = record {
  Metadata = List MetadataEntry;
  no_entries = [];
  is_empty_metadata = is_empty;
  metadata_entries = λ m. m;
  get_entry = get_first;
  put_entry = λ e m. e ∷ remove_entry e.key m;
  parse_key = λ kind s. some s;
  parse_ascii = λ s. some s;
  get_entry-no_entries = λ k. refl;
  get_entry-put_entry = get_first-insert;
  is_empty_metadata-entries = is_empty-nil;
}
