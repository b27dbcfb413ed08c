-- ===== src/Tests/Helpers.antt =====
-- The theorems on collections, files and protobufs at concrete ones.
use p4rt_standalone.Prelude.{
  ℕ, suc, ◌≡◌, ◌≢◌, ◌↔◌, refl, String, Bool, true, false, Option, none, some, if◌then◌else◌,
  same_number, same_number_iff, Bool-cases, inl, inr,
}
use p4rt_standalone.Collections.Helpers.{MapApi, insert_if_unique}
use p4rt_standalone.Collections.Unique.{Insertion, insert_if_unique-Insertion}
use p4rt_standalone.Files.Io.{FstreamApi, ErrnoApi, write_file}
use p4rt_standalone.Files.Outcome.{Written, write_file-Written}
use p4rt_standalone.Files.Proto.{ProtoApi, read_proto_from_file}
use p4rt_standalone.Status.Code.{StatusCode}
use p4rt_standalone.Tests.Program.{program}
use p4rt_standalone.Tests.Samples.{absl}

-- Maps as functions.
abbrev Table : Type 0
Table = ℕ → Option String

abbrev insert_into : Option String → ℕ → String → Table → Bool × Table
insert_into none k v m = (true, λ q. if same_number k q then some v else m q)
insert_into (some w) k v m = (false, m)

insert_into_iff :
    (k : ℕ) (v : String) (m : Table) (o : Option String)
    → ((insert_into o k v m).0 ≡ true) ↔ (o ≡ none)
insert_into_iff k v m none = (λ h. refl, λ h. refl)
insert_into_iff k v m (some w) = (λ h. cc, λ h. cc)

find-insert_into :
    (k : ℕ) (v : String) (m : Table) (o : Option String)
    → o ≡ none
    → (insert_into o k v m).1 k ≡ some v
find-insert_into k v m none h = rw ((same_number_iff k k).1 refl) refl
find-insert_into k v m (some w) h = cc

find-insert_into_other :
    (k k' : ℕ) (v : String) (m : Table) (o : Option String)
    → k ≢ k'
    → (insert_into o k v m).1 k' ≡ m k'
find-insert_into_other k k' v m none n = elim (Bool-cases (same_number k k')) [
  | inl e ↦ absurd (n ((same_number_iff k k').0 e))
  | inr e ↦ rw e refl
]
find-insert_into_other k k' v m (some w) n = refl

insert_into_present :
    (k : ℕ) (v w : String) (m : Table) (o : Option String)
    → o ≡ some w
    → (insert_into o k v m).1 ≡ m
insert_into_present k v w m none h = cc
insert_into_present k v w m (some w') h = refl

instance abbrev table : MapApi ℕ String Table
table = record {
  find = λ k m. m k;
  insert = λ k v m. insert_into (m k) k v m;
  insert_iff = λ k v m. insert_into_iff k v m (m k);
  find-insert = λ k v m. find-insert_into k v m (m k);
  find-insert_other = λ k k' v m. find-insert_into_other k k' v m (m k);
  insert_present = λ k v w m. insert_into_present k v w m (m k);
}

abbrev ports : Table
ports q = if same_number q 1 then some "eth0" else none

insert_if_unique-Insertion_example :
    Insertion {K = ℕ} {V = String} 2 "eth1" "duplicate port" ports
      (insert_if_unique {K = ℕ} {V = String} 2 "eth1" "duplicate port" ports)
insert_if_unique-Insertion_example = insert_if_unique-Insertion 2 "eth1" "duplicate port" ports

refused_port :
    (insert_if_unique {K = ℕ} {V = String} 1 "eth1" "duplicate port" ports).0.code
    ≡ StatusCode.invalid_argument
unfolding insert_if_unique
refused_port = refl

instance abbrev errors : ErrnoApi
errors = record {
  eacces = 13;
  enoent = 2;
  strerror = λ errno. "an error";
  decimal = λ errno. "a number";
}

-- What is known of a stream: whether it failed, whether it is bad, and errno. Every file opens, and
-- has the text "text"; closing one fails.
abbrev streams : FstreamApi (Bool × Bool × ℕ)
streams = record {
  open_in = λ path. (false, false, 0);
  open_out = λ path. (false, false, 0);
  fail = λ f. f.0;
  bad = λ f. f.1;
  read_all = λ f. ("text", f);
  insert = λ content f. f;
  close = λ f. (true, f.1, f.2);
  errno = λ f. f.2;
  bad-close = λ f. refl;
}

write_file-Written_example : Written streams "text" "out" (write_file streams "text" "out")
write_file-Written_example = write_file-Written streams "text" "out"

-- A file that could not be closed counts as written.
close_unnoticed : (write_file streams "text" "out").code ≡ StatusCode.ok
unfolding write_file
close_unnoticed = refl

-- Messages are numbers, which a parse raises; there is one file.
abbrev counters : ProtoApi ℕ String
counters = record {
  open_read_only = λ filename. some 3;
  parse = λ fd message. (false, suc message);
  parse_from_string = λ text message. (true, suc message);
  find_oneof = λ message name. some name;
  set_field = λ message oneof. oneof;
}

unparsed_file : (read_proto_from_file counters "a.pb.txt" 0).0.code ≡ StatusCode.invalid_argument
unfolding read_proto_from_file program
unparsed_file = refl
