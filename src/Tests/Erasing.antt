-- ===== src/Tests/Erasing.antt =====
-- Keys and an erasure at concrete inputs, with a cipher that leaves texts as they are and generations
-- of one digit.
use wisetraceloom.Prelude.{
  ◌-◌, ◌≢◌, refl, none, some, [], ◌∷◌, Text, codes, text_Eq, option_Eq, nat_Eq,
}
use wisetraceloom.Tests.Engine.{engine, machine}
use wisetraceloom.Tests.Storing.{first_table, race}
use wisetraceloom.Results.{ok, err, value_error}
use wisetraceloom.Masking.{returned}
use wisetraceloom.Storage.Commit.{World}
use wisetraceloom.CryptoShred.{
  Cipher, SubjectKey, ErasureRequest, Shredding, confirm_erasure, decrypt_for_subject, get_request,
}
use wisetraceloom.CryptoShred.Erasure.{decrypt_for_subject_erased}

abbrev open_cipher : Cipher
open_cipher = record {
  encrypt = λ key random plaintext. plaintext;
  decrypt = λ key token. ok token;
  decrypt-encrypt = λ key random plaintext. refl;
  int = λ t. elim t [ [] ↦ err value_error | c ∷ rest ↦ ok (c - b'0') ];
}

abbrev ann : Text
ann = codes "ann"

abbrev key : Text → SubjectKey
key subject = record {
  subject_id = subject;
  tenant_id = none;
  generation = 1;
  key_material = some (codes "secret");
  created_at = 1;
  destroyed_at = none;
}

abbrev request : ErasureRequest
request = record {
  id = 1;
  subject_id = ann;
  tenant_id = none;
  status = codes "Requested";
  scope = none;
  requested_by = none;
  requested_at = 2;
  confirmed_at = none;
}

abbrev tables : Shredding
tables = record { keys = key ann ∷ key (codes "bob") ∷ []; requests = request ∷ [] }

abbrev world : World
world = record {
  residency = record {
    config = record { db_path = codes "a.db"; stores = λ path. []; cache = [] };
    region_db_paths = [];
  };
  config = record { db_path = codes "a.db"; stores = λ path. []; cache = [] };
  stores = λ path. first_table;
  checkpoints = λ path. [];
  last_checkpoints = [];
  jobs = [];
}

decrypt_for_subject_erased_example :
    decrypt_for_subject engine open_cipher ann
      (codes "1.hello")
      (confirm_erasure machine
        (λ p. returned p)
        (λ r destroyed. codes "fact")
        race
        1
        3
        tables
        world).1.0
    ≢ ok (some (codes "hello"))
unfolding get_request
decrypt_for_subject_erased_example =
    decrypt_for_subject_erased machine open_cipher (λ p. returned p) (λ r destroyed. codes "fact")
      race 1 3 tables world request (codes "1.hello") (codes "hello") refl refl
