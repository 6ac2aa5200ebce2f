-- ===== src/Signatures/Tests.antt =====
-- Runs of the operations of aegorx/signatures/db.py on a small table.
use aegor_x.Prelude.{◌≡◌, refl, String_discrete, none, some, List, [], ◌∷◌}
use aegor_x.Signatures.{Row, Text, Record, find, add, import_json, import_records, present}
use aegor_x.Signatures.Laws.{IsTable, empty, add-IsTable}

abbrev plain : Text
plain = record { normalize = λ s. s; trim = λ s. s }

abbrev eicar : Row
eicar = record {
  sha256 = "275a";
  md5 = "44d8";
  sha1 = "3395";
  name = "EICAR-Test-File";
  family = "test";
  severity = 12;
  source = "builtin";
  added_at = 0;
}

abbrev records : List Record
records =
    record {
      sha256 = some "ab12";
      name = some "Worm.A";
      md5 = "";
      sha1 = "";
      family = "worm";
      severity = 9;
    }
    ∷ record {
      sha256 = none;
      name = some "Nameless";
      md5 = "";
      sha1 = "";
      family = "";
      severity = 5;
    }
    ∷ record {
      sha256 = some "ab12";
      name = some "Worm.B";
      md5 = "";
      sha1 = "";
      family = "worm";
      severity = 4;
    }
    ∷ []

one_row-IsTable : IsTable (add plain 7 eicar []).0
one_row-IsTable = add-IsTable plain 7 eicar [] empty

imports_one : (import_json plain 9 "feed" records (eicar ∷ [])).1 ≡ 1
unfolding import_records present String_discrete find
imports_one = refl
