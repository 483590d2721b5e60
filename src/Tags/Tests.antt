-- ===== src/Tags/Tests.antt =====
-- Tags that are parsed, and the round trip of one with every option.
use xlorm.Common.{◌≡◌, refl, true, false}
use xlorm.Text.{codes, eq_text, contains_any, has_byte}
use xlorm.Tags.{
  FieldMeta, parse_field_meta, split, apply_options, apply_option, has_prefix, trim_prefix,
}
use xlorm.Tags.RoundTrip.{IsWritable, print_tag, parse_field_meta-print_tag}

abbrev age : FieldMeta
age = record {
  db_name = codes "age";
  sql_type = codes "int";
  default_val = codes "a=18";
  ignored = false;
  required = true;
  omitempty = true;
  is_pk = false;
  has_default = true;
}

-- The order of the options does not matter, and an unknown one is passed over.
parsed : parse_field_meta (codes "age,type=int,size=3,required,default=a=18,omitempty") ≡ age
unfolding parse_field_meta split apply_options apply_option has_prefix trim_prefix eq_text codes
parsed = refl

age-IsWritable : IsWritable age
unfolding contains_any has_byte codes
age-IsWritable = record {
  name_lacks = refl;
  type_lacks = refl;
  default_lacks = refl;
  no_default = λ e. absurd cc;
}

parse_field_meta-print_tag_example : parse_field_meta (print_tag age) ≡ age
parse_field_meta-print_tag_example = parse_field_meta-print_tag age age-IsWritable
