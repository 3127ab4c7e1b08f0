-- ===== src/Examples/Cluster.antt =====
-- A cluster that holds documents in a list, and an encoding of checkpoint documents.
use go_dcp.Prelude.{
  ℕ, ◌≡◌, ◌↔◌, ◌≢◌, refl, ap, Bool, true, false, ◌&&◌, Option, none, some, List, [], ◌∷◌,
  Comparable, lookup, insert, erase, lookup-insert, lookup-erase, arith, ◌==◌, ==_iff,
  if◌then◌else◌, ◌>>=◌,
}
use go_dcp.Models.{CheckpointDocument}
use go_dcp.Metadata.Documents.{Agent, KvError, key_not_found, Found, found, not_read}
use go_dcp.Metadata.Couchbase.{Codec}

abbrev same_bytes : List ℕ → List ℕ → Bool
same_bytes [] [] = true
same_bytes [] (y ∷ ys) = false
same_bytes (x ∷ xs) [] = false
same_bytes (x ∷ xs) (y ∷ ys) = x == y && same_bytes xs ys

same_bytes_iff : (xs ys : List ℕ) → (same_bytes xs ys ≡ true) ↔ (xs ≡ ys)
same_bytes_iff [] [] = ground arith
same_bytes_iff [] (y ∷ ys) = ground arith
same_bytes_iff (x ∷ xs) [] = ground arith
same_bytes_iff (x ∷ xs) (y ∷ ys) = ground (arith, same_bytes_iff xs ys, ==_iff x y)

instance abbrev bytes_comparable : Comparable (List ℕ)
bytes_comparable = record { beq = same_bytes; beq_iff = same_bytes_iff }

-- A document that is there, with or without the attribute.
abbrev pub Documents : Type 0
Documents = List (List ℕ × Option (List ℕ))

abbrev attribute_of : Documents → List ℕ → Option (List ℕ)
attribute_of s id = lookup id s >>= λ o. o

abbrev write_attribute :
    Option (Option (List ℕ)) → Documents → List ℕ → List ℕ → Option KvError × Documents
write_attribute none s id value = (some key_not_found, s)
write_attribute (some o) s id value = (none, insert id (some value) s)

abbrev found_in : Option (List ℕ) → Found
found_in none = not_read key_not_found
found_in (some value) = found value

attribute-insert :
    (s : Documents) (id j : List ℕ) (o : Option (List ℕ))
    → attribute_of (insert id o s) j ≡ (if same_bytes id j then o else attribute_of s j)
attribute-insert s id j o = rw (lookup-insert id j o s) (ground arith)

attribute-erase :
    (s : Documents) (id j : List ℕ)
    → attribute_of (erase id s) j ≡ (if same_bytes id j then none else attribute_of s j)
attribute-erase s id j = rw (lookup-erase id j s) (ground arith)

pub set_other :
    (s : Documents) (id j value : List ℕ)
    → id ≢ j
    → attribute_of (insert id none s) j ≡ attribute_of s j
set_other s id j value apart = ground (arith, attribute-insert s id j none, same_bytes_iff id j)

pub write_lem :
    (o : Option (Option (List ℕ))) (s : Documents) (id value : List ℕ)
    → (write_attribute o s id value).0 ≡ none
    → attribute_of (write_attribute o s id value).1 id ≡ some value
write_lem none s id value ok = absurd (ground arith)
write_lem (some o) s id value ok =
    ground (arith, attribute-insert s id id (some value), (same_bytes_iff id id).1 refl)

pub write_other :
    (o : Option (Option (List ℕ))) (s : Documents) (id j value : List ℕ)
    → id ≢ j
    → attribute_of (write_attribute o s id value).1 j ≡ attribute_of s j
write_other none s id j value apart = refl
write_other (some o) s id j value apart =
    ground (arith, attribute-insert s id j (some value), same_bytes_iff id j)

pub found_lem : (o : Option (List ℕ)) (value : List ℕ) → found_in o ≡ found value → o ≡ some value
found_lem none value h = absurd (ground arith)
found_lem (some v) value h = let same : v ≡ value = cc in ap some same

pub not_found_lem : (o : Option (List ℕ)) → found_in o ≡ not_read key_not_found → o ≡ none
not_found_lem none h = refl
not_found_lem (some v) h = absurd (ground arith)

pub erase_lem : (s : Documents) (id : List ℕ) → attribute_of (erase id s) id ≡ none
erase_lem s id = ground (arith, attribute-erase s id id, (same_bytes_iff id id).1 refl)

pub erase_other :
    (s : Documents) (id j : List ℕ) → id ≢ j → attribute_of (erase id s) j ≡ attribute_of s j
erase_other s id j apart = ground (arith, attribute-erase s id j, same_bytes_iff id j)

abbrev pub cluster : Agent
cluster = record {
  State = Documents;
  set = λ s id value. (none, insert id none s);
  mutate_in = λ s id value. write_attribute (lookup id s) s id value;
  lookup_in = λ s id. found_in (attribute_of s id);
  delete = λ s id. (none, erase id s);
  attribute = attribute_of;
  attribute-set = set_other;
  attribute-mutate_in = λ s id value. write_lem (lookup id s) s id value;
  attribute-mutate_in_other = λ s id j value. write_other (lookup id s) s id j value;
  attribute-lookup_in = λ s id. found_lem (attribute_of s id);
  attribute-lookup_in_none = λ s id. not_found_lem (attribute_of s id);
  attribute-delete = λ s id ok. erase_lem s id;
  attribute-delete_other = erase_other;
}

abbrev marshal : CheckpointDocument → List ℕ
marshal doc =
    doc.checkpoint.snapshot.start_seq_no ∷ doc.checkpoint.snapshot.end_seq_no
    ∷ doc.checkpoint.vb_uuid ∷ doc.checkpoint.seq_no ∷ doc.bucket_uuid

abbrev unmarshal : List ℕ → Option CheckpointDocument
unmarshal (start ∷ end ∷ vb_uuid ∷ seq_no ∷ bucket_uuid) = some (record {
  checkpoint = record {
    snapshot = record { start_seq_no = start; end_seq_no = end };
    vb_uuid = vb_uuid;
    seq_no = seq_no;
  };
  bucket_uuid = bucket_uuid;
})
unmarshal [] = none
unmarshal (a ∷ []) = none
unmarshal (a ∷ b ∷ []) = none
unmarshal (a ∷ b ∷ c ∷ []) = none

abbrev pub plain_codec : Codec
plain_codec = record { marshal = marshal; unmarshal = unmarshal; unmarshal-marshal = λ doc. refl }
