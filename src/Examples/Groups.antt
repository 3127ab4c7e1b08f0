-- ===== src/Examples/Groups.antt =====
-- Groups of instances, health checks, and documents in a file.
use go_dcp.Prelude.{
  sym, ap, ◌>>=◌, get_elem?, ℕ, ◌≡◌, ◌≢◌, ◌↔◌, refl, Bool, true, false, Option, none, some, List,
  [], ◌∷◌, String, nat_comparable, string_comparable, lookup, arith, codes, ltb,
}
use go_dcp.Wrapper.{ConcurrentSwissMap, load}
use go_dcp.Models.{CheckpointDocument, new_empty_checkpoint_document}
use go_dcp.Wrapper.Json.{JsonMaps}
use go_dcp.Metadata.{loaded}
use go_dcp.Metadata.File.{Files, ReadFile, contents, not_exist, file_metadata, load_file-save}
use go_dcp.CbMembership.{Instance, CbMembership, rebalance}
use go_dcp.CbMembership.Shared.{Takes, group_streams_once}
use go_dcp.Examples.Members.{ten_buckets}
use go_dcp.HealthCheck.{perform_health_check, panics, perform_health_check-panics}
use go_dcp.Examples.Fixtures.{nat_table}

abbrev instance_of : String → ℕ → Instance
instance_of id time = record { id = id; heartbeat_time = 90; cluster_join_time = time }

abbrev two_instances : List Instance
two_instances = instance_of "a" 1 ∷ instance_of "b" 2 ∷ []

abbrev pub member_b : CbMembership
member_b = record {
  id = "b";
  info = none;
  cluster_join_time = 2;
  last_active_instances = [];
  upper_wait_limit = 10;
  heartbeat_running = true;
  monitor_running = true;
}

a_not_b : (instance_of "a" 1).id ≢ (instance_of "b" 2).id
a_not_b e = let bad : false ≡ true = (string_comparable.beq_iff "a" "b").1 e in ground arith

abbrev started : Instance → CbMembership
started i = record member_b { id = i.id }

group_streams_once_example :
    (k : ℕ) × (i : Instance) × (get_elem? two_instances k ≡ some i)
    × Takes ten_buckets (rebalance (started i) two_instances) 7
    × ((l : ℕ) (j : Instance)
        → get_elem? two_instances l ≡ some j
        → Takes ten_buckets (rebalance (started j) two_instances) 7
        → l ≡ k)
group_streams_once_example =
    group_streams_once started (λ i. refl) (λ i. refl) two_instances ((a_not_b, tt), (tt, tt))
      ten_buckets 7 (omega arith) (omega arith) (omega arith) (omega arith)

perform_health_check-panics_example :
    (perform_health_check (λ n. false) (λ n. ltb 3 n) ≡ panics) ↔ (
      ((false ≡ false) × (false ≡ false) × (false ≡ false) × (false ≡ false) × (false ≡ false))
      × ((ltb 3 1 ≡ false) × (ltb 3 2 ≡ false) × (ltb 3 3 ≡ false) × (ltb 3 4 ≡ false)))
perform_health_check-panics_example = perform_health_check-panics (λ n. false) (λ n. ltb 3 n)

abbrev disk : Files
disk = record {
  State = ReadFile;
  write_file = λ s text. contents text;
  wrote = λ s text. true;
  read_file = λ s. s;
  remove = λ s. not_exist;
  read-write_file = λ s text ok. refl;
}

abbrev docs_5 : List (ℕ × CheckpointDocument)
docs_5 = (5, new_empty_checkpoint_document (codes "b1")) ∷ []

-- An encoder that has texts for maps of one document: its vBucket and its parts, one after another.
abbrev text_of : List (ℕ × CheckpointDocument) → Option (List ℕ)
text_of [] = none
text_of ((k, d) ∷ []) = some (
    k ∷ d.checkpoint.vb_uuid ∷ d.checkpoint.seq_no ∷ d.checkpoint.snapshot.start_seq_no
    ∷ d.checkpoint.snapshot.end_seq_no ∷ d.bucket_uuid)
text_of (d ∷ e ∷ ds) = none

abbrev read_text : List ℕ → Option (List (ℕ × CheckpointDocument))
read_text (k ∷ vb_uuid ∷ seq_no ∷ start_seq_no ∷ end_seq_no ∷ bucket_uuid) = some (
    (
      k,
      record {
        checkpoint = record {
          snapshot = record { start_seq_no = start_seq_no; end_seq_no = end_seq_no };
          vb_uuid = vb_uuid;
          seq_no = seq_no;
        };
        bucket_uuid = bucket_uuid;
      },
    )
    ∷ [])
read_text text = none

read_text-text_of :
    (l : List (ℕ × CheckpointDocument)) (text : List ℕ)
    → text_of l ≡ some text
    → read_text text ≡ some l
read_text-text_of [] text e = absurd (ground arith)
read_text-text_of (d ∷ []) text e = ap (λ o. o >>= read_text) (sym e)
read_text-text_of (d ∷ f ∷ ds) text e = absurd (ground arith)

abbrev json : JsonMaps ℕ CheckpointDocument
json = record {
  encode = text_of;
  decode = read_text;
  decode-encode = λ l text distinct e. (l, read_text-text_of l text e, distinct, λ k. refl);
}

abbrev text_5 : List ℕ
text_5 = 5 ∷ 0 ∷ 0 ∷ 0 ∷ 0 ∷ codes "b1"

abbrev no_dirty : List (ℕ × Bool)
no_dirty = []

abbrev no_error : Option ReadFile
no_error = none

load_file-save_example :
    (no_error ≡ none)
    × ((r : ConcurrentSwissMap ℕ CheckpointDocument) × ((file_metadata disk json).load
            (contents text_5)
            (5 ∷ [])
            []
          ≡ loaded r true)
        × ((j : ℕ) → load r j ≡ lookup j docs_5))
unfolding new_empty_checkpoint_document
load_file-save_example =
    load_file-save disk json not_exist (contents text_5) docs_5 no_dirty [] [] text_5 no_error
      (5 ∷ []) (refl, tt) refl refl refl
