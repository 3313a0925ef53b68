-- ===== src/Tests/PoolTests.antt =====
-- Runs of larking/compress.go, of params.set and the selector of rules, and of several gRPC messages.
use larking.Base.{
  ℕ, false, Option, none, some, List, [], ◌∷◌, ◌++◌, ◌≡◌, refl, sym, codes, Bytes, beq, arith, ◌==◌,
}
use larking.Io.{Reader}
use larking.Compress.{Gzip, CompressorGzip, compress, close, pick, put, reset, make}
use larking.Compress.Runs.{compresses, closes, Reach, here, next}
use larking.Compress.Holders.{BothExclusive, new_system, Reach-BothExclusive}
use larking.Rules.Fields.{split}
use larking.Rules.SetParams.{Reflect}
use larking.Mux.Selector.{Selector, empty_selector, get_rules, set_rules, set_rule, write_child}
use larking.Mux.Selected.{gather, rules_for, HasNames, get_rules-set_rules}
use larking.Health.{check_rule, add_healthz}
use larking.Grpc.Frame.{Wire, make_frame, frame}
use larking.Grpc.FrameLaws.{IsFaithful}
use larking.Grpc.Sequence.{Sent, sent_none, sent_next, ReceivesAll, recv_frames-Sent}

abbrev lenient : Gzip
lenient = record { level_error = λ l. none; header_error = λ r. none }

-- A writer is made for stream 7, closed, and set to stream 8.
reused :
    (c : CompressorGzip) × Reach lenient
      (new_system none)
      (record { gzip = c; writers = (0, 8) ∷ []; readers = []; lost = [] })
unfolding compress pick reset make close put
reused = (_, next (next (next here (compresses 0 7 refl)) (closes [] [] 0 7)) (compresses 0 8 refl))

Reach-BothExclusive_example :
    BothExclusive (record { gzip = reused.0; writers = (0, 8) ∷ []; readers = []; lost = [] })
Reach-BothExclusive_example = Reach-BothExclusive lenient none _ reused.1

-- A message of one text, and a list of texts.
abbrev Texts : Type 0
Texts = Option Bytes × List Bytes

abbrev texts : Reflect
texts = record {
  Msg = Texts;
  Field = ℕ;
  Value = Bytes;
  is_list = λ f. false;
  is_map = λ f. false;
  is_message = λ f. f == 2;
  set = λ f v m. (some v, m.1);
  append = λ f v m. (m.0, m.1 ++ v ∷ []);
  get = λ f m. m.0;
  items = λ f m. m.1;
  mutable = λ f m. m;
  write_back = λ f sub m. sub;
}

abbrev from_path : List (Bytes × List ℕ)
from_path = (codes "path", 1 ∷ []) ∷ []

abbrev or_empty : Option Selector → Selector
or_empty none = empty_selector
or_empty (some s) = s

abbrev healthz : Selector
healthz = or_empty (set_rules empty_selector (add_healthz []))

healthz_set : set_rules empty_selector (add_healthz []) ≡ some healthz
unfolding set_rules set_rule write_child split add_healthz beq
healthz_set = refl

abbrev check_names : List Bytes
check_names = codes "grpc" ∷ codes "health" ∷ codes "v1" ∷ codes "Health" ∷ codes "Check" ∷ []

check_names-HasNames : HasNames check_names
unfolding HasNames beq
check_names-HasNames = (refl, (refl, (refl, (refl, (refl, tt)))))

get_rules-set_rules_example :
    get_rules healthz check_names ≡ gather (rules_for (add_healthz [])) check_names
get_rules-set_rules_example =
    get_rules-set_rules (add_healthz []) healthz check_names healthz_set check_names-HasNames

-- The rule of the check is found, and no other.
healthz_check : gather (rules_for (add_healthz [])) check_names ≡ check_rule ∷ []
unfolding gather rules_for split add_healthz beq
healthz_check = refl

abbrev quiet_wire : Wire Bytes
quiet_wire = record {
  marshal = λ b. some b;
  unmarshal = λ b. some b;
  comp = none;
  max_receive = 100;
  has_stats = false;
}

quiet_wire-IsFaithful : IsFaithful quiet_wire
quiet_wire-IsFaithful = record { decodes = λ m b e. sym e; decompresses = λ c b z e k. cc }

abbrev frame_of_a : Bytes
frame_of_a = 0 ∷ 0 ∷ 0 ∷ 0 ∷ 1 ∷ codes "a"

abbrev frame_of_no : Bytes
frame_of_no = 0 ∷ 0 ∷ 0 ∷ 0 ∷ 2 ∷ codes "no"

framed_a : make_frame quiet_wire (codes "a") ≡ frame frame_of_a
unfolding make_frame
framed_a = refl

framed_no : make_frame quiet_wire (codes "no") ≡ frame frame_of_no
unfolding make_frame
framed_no = refl

abbrev two_reads : Reader
two_reads = (frame_of_a ++ 0 ∷ 0 ∷ [], none) ∷ (0 ∷ 0 ∷ 2 ∷ codes "no", none) ∷ []

two_written : Sent quiet_wire (codes "a" ∷ codes "no" ∷ []) (frame_of_a ++ (frame_of_no ++ []))
two_written =
    sent_next framed_a (omega arith) (omega arith)
      (sent_next framed_no (omega arith) (omega arith) sent_none)

recv_frames-Sent_example : ReceivesAll quiet_wire [] (codes "a" ∷ codes "no" ∷ []) two_reads
recv_frames-Sent_example =
    recv_frames-Sent quiet_wire (codes "a" ∷ codes "no" ∷ []) (frame_of_a ++ (frame_of_no ++ [])) []
      two_reads quiet_wire-IsFaithful refl two_written tt refl
