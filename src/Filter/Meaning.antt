-- ===== src/Filter/Meaning.antt =====
-- What one filter says of an item, without the loop: that it holds, or that it is missed. A filter
-- on an empty text, with an unknown comparison or with a pattern that does not compile does neither.
use gosn_v.Prelude.{String, Bool, true, false, not, ◌&&◌, Option, none, some, ◌==◌, if◌then◌else◌}
use gosn_v.Items.Types.{Tag}
use gosn_v.Filter.Types.{Compiler, Regex, Filter, key_is, contains, regex_of}

abbrev pub accepts : Option Regex → String → Bool
accepts none text = false
accepts (some re) text = re text

abbrev pub rejects : Option Regex → String → Bool
rejects none text = false
rejects (some re) text = not (re text)

module _ (compile : Compiler) (f : Filter) where
  unfoldable pub text_holds : String → Bool
  text_holds text =
      if f.comparison == "~"
      then accepts (regex_of compile f) text
      else if f.comparison == "=="
      then text == f.value
      else if f.comparison == "!="
      then not (text == f.value)
      else if f.comparison == "contains"
      then contains text f.value
      else false

  unfoldable pub text_misses : String → Bool
  text_misses text =
      if f.comparison == "~"
      then rejects (regex_of compile f) text
      else if f.comparison == "=="
      then not (text == f.value)
      else if f.comparison == "!="
      then text == f.value
      else if f.comparison == "contains"
      then not (contains text f.value)
      else false

  unfoldable pub tag_holds : Tag → Bool
  tag_holds t =
      if key_is f.key "title"
      then not (t.content.title == "") && text_holds t.content.title
      else if key_is f.key "uuid"
      then t.uuid == f.value
      else true

  unfoldable pub tag_misses : Tag → Bool
  tag_misses t =
      if key_is f.key "title"
      then not (t.content.title == "") && text_misses t.content.title
      else if key_is f.key "uuid"
      then not (t.uuid == f.value)
      else false
