-- ===== src/Tests/Field.antt =====
-- duro/treerec/field.c on records with fields of both kinds.
use durodbms.Prelude.{
  List, [], arith, err, inr, none, ok, record_corrupted, refl, some, true, ◌∷◌, ◌≡◌,
}
use durodbms.TreeRec.Bytes.{Bytes}
use durodbms.TreeRec.Field.{
  Field, Layout, copy_fixed, copy_var, fields_to_mem, fixed_offset, get_field, get_len,
  get_mem_fields, get_vflen, locate, mem_size, resize, set_field_mem, set_len, store, var_offset,
  var_pos,
}
use durodbms.TreeRec.Field.Read.{IsKey, IsValue}
use durodbms.TreeRec.Field.Round.{get_mem_fields-fields_to_mem}
use durodbms.TreeRec.Field.Update.{set_field_mem-fields_to_mem}

-- A key of one byte and a text, a value of a text, two bytes and a text.
abbrev layout : Layout
layout = record {
  fieldinfos = some 1 ∷ none ∷ none ∷ some 2 ∷ none ∷ [];
  fieldcount = 5;
  keyfieldcount = 2;
  varkeyfieldcount = 1;
  vardatafieldcount = 2;
}

abbrev text : Field
text = record { no = 2; value = 7 ∷ 8 ∷ [] }

abbrev two : Field
two = record { no = 3; value = 1 ∷ 2 ∷ [] }

abbrev last : Field
last = record { no = 4; value = 9 ∷ [] }

abbrev keys : List Field
keys = record { no = 0; value = 5 ∷ [] } ∷ record { no = 1; value = 6 ∷ [] } ∷ []

abbrev values : List Field
values = text ∷ two ∷ last ∷ []

abbrev value_mem : Bytes
value_mem = 1 ∷ 2 ∷ 7 ∷ 8 ∷ 9 ∷ 2 ∷ 0 ∷ 0 ∷ 0 ∷ 1 ∷ 0 ∷ 0 ∷ 0 ∷ []

abbrev key_mem : Bytes
key_mem = 5 ∷ 6 ∷ 1 ∷ 0 ∷ 0 ∷ 0 ∷ []

runs : Unit {0}
unfolding fields_to_mem mem_size copy_fixed copy_var store set_len get_len get_field locate
    var_offset var_pos fixed_offset get_vflen get_mem_fields set_field_mem resize
runs = tt

written : fields_to_mem layout true values ≡ ok value_mem
unfolding runs
written = refl

written_key : fields_to_mem layout true keys ≡ ok key_mem
unfolding runs
written_key = refl

found_last : get_field layout 4 value_mem ≡ ok (record { offs = 4; len = 1; vpos = some 1 })
unfolding runs
found_last = refl

shrunk :
    set_field_mem layout true value_mem (record { no = 2; value = [] }) 2
    ≡ ok (1 ∷ 2 ∷ 9 ∷ 0 ∷ 0 ∷ 0 ∷ 0 ∷ 1 ∷ 0 ∷ 0 ∷ 0 ∷ [])
unfolding runs
shrunk = refl

corrupted : get_field layout 3 (7 ∷ []) ≡ err record_corrupted
unfolding runs
corrupted = refl

values-IsValue : IsValue layout values
values-IsValue = record {
  numbered = (refl, (refl, (refl, tt)));
  fits = (omega arith, (refl, (omega arith, tt)));
  filled = refl;
  counted = refl;
}

keys-IsKey : IsKey layout keys
keys-IsKey = record {
  numbered = (refl, (refl, tt));
  fits = (refl, (omega arith, tt));
  filled = refl;
  counted = refl;
}

get_mem_fields-fields_to_mem_example :
    get_mem_fields layout key_mem value_mem (4 ∷ 0 ∷ [])
    ≡ ok (last ∷ record { no = 0; value = 5 ∷ [] } ∷ [])
get_mem_fields-fields_to_mem_example =
    get_mem_fields-fields_to_mem layout keys values key_mem value_mem (4 ∷ 0 ∷ []) keys-IsKey
      values-IsValue written_key written (omega arith, (omega arith, tt))

set_field_mem-fields_to_mem_example :
    set_field_mem layout true value_mem (record { no = 2; value = 1 ∷ 1 ∷ 1 ∷ [] }) 2
    ≡ fields_to_mem layout true (record { no = 2; value = 1 ∷ 1 ∷ 1 ∷ [] } ∷ two ∷ last ∷ [])
set_field_mem-fields_to_mem_example =
    set_field_mem-fields_to_mem layout 2 [] text (two ∷ last ∷ []) (1 ∷ 1 ∷ 1 ∷ []) value_mem
      (inr values-IsValue) refl (omega arith) written
