-- ===== src/Tests/Mentioning.antt =====
-- Mentions in a text, where the small Latin letters are the word characters.
use issueflow.Prelude.{◌≡◌, refl, leb, ◌&&◌, true, Text, [], ◌∷◌, ◌++◌, any, text_eq, All}
use issueflow.Store.{Env}
use issueflow.Mentions
use issueflow.Mentions.{extract_usernames}
use issueflow.Mentions.Reading.{extract_usernames_complete}
use issueflow.Mentions.Occurring.{Named, NoTwice, extract_usernames_sound}
use issueflow.Tests.Samples.{env_at}

abbrev letters : Env
letters = record (env_at 100) { is_word = λ c. leb b'a' c && leb c b'z' }

-- "hi @ann, x@bob @ann-b"
abbrev content : Text
content =
    b'h' ∷ b'i' ∷ b' ' ∷ b'@' ∷ b'a' ∷ b'n' ∷ b'n' ∷ b',' ∷ b' ' ∷ b'x' ∷ b'@' ∷ b'b' ∷ b'o' ∷ b'b'
    ∷ b' ' ∷ b'@' ∷ b'a' ∷ b'n' ∷ b'n' ∷ b'-' ∷ b'b' ∷ []

abbrev ann_name : Text
ann_name = b'a' ∷ b'n' ∷ b'n' ∷ []

both : extract_usernames letters content ≡ ann_name ∷ (ann_name ++ b'-' ∷ b'b' ∷ []) ∷ []
unfolding extract_usernames Mentions.match_all Mentions.match_at Mentions.name_at Mentions.take_name
    Mentions.collect Mentions.add_once any text_eq
both = refl

extract_usernames_complete_example :
    any
      (λ x. text_eq x ann_name)
      (extract_usernames letters (b'h' ∷ b'i' ∷ b' ' ∷ b'@' ∷ (ann_name ++ b',' ∷ [])))
    ≡ true
extract_usernames_complete_example =
    extract_usernames_complete letters (b'h' ∷ b'i' ∷ b' ' ∷ []) ann_name (b',' ∷ []) refl refl refl
      refl refl

extract_usernames_sound_example :
    NoTwice (extract_usernames letters content)
    × All (Named letters content) (extract_usernames letters content)
extract_usernames_sound_example = extract_usernames_sound letters content
