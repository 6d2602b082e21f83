-- ===== src/Material/Candidates.antt =====
-- source_candidate.go: the candidates for synthesis that the fetched items give.
use second_brain.Prelude.{
  List, Text, [], codes, fallback, if◌then◌else◌, is_nil, map, not, trim, ◌&&◌, ◌++◌, ◌==◌, ◌∷◌,
}
use second_brain.Models.{
  SourceCandidate, XBookmark, YouTubeItem, source_type_x, source_type_youtube,
}

abbrev pub plain_text : Text
plain_text = codes "text/plain; charset=utf-8"

unfoldable pub bookmark_title : XBookmark → Text
bookmark_title b =
    let title =
      if is_nil b.title && not (is_nil b.username) then codes "@" ++ b.username else b.title in
    if is_nil title then fallback b.author_name (codes "X bookmark") else title

unfoldable pub candidate_from_bookmark : XBookmark → SourceCandidate
candidate_from_bookmark b = record {
  source_type = source_type_x;
  external_id = b.id;
  source_url = b.source_url;
  title = bookmark_title b;
  author_name = b.author_name;
  username = b.username;
  published_at = b.created_at;
  body = fallback b.body b.text;
  artifact_kind = if b.content_type == codes "article" then codes "article" else codes "tweet";
  content_type = plain_text;
}

unfoldable pub candidates_from_bookmarks : List XBookmark → List SourceCandidate
candidates_from_bookmarks = map candidate_from_bookmark

-- The timed transcript, the plain one, or a preview.
unfoldable pub video_body : YouTubeItem → Text
video_body v =
    fallback (fallback v.transcript_timed_text v.transcript_text)
      (fallback v.transcript_preview v.transcript_original_preview)

unfoldable pub candidate_from_video : YouTubeItem → SourceCandidate
candidate_from_video v = record {
  source_type = source_type_youtube;
  external_id = v.video_id;
  source_url = v.source_url;
  title = fallback v.title (codes "Untitled YouTube video");
  author_name = v.channel_title;
  username = [];
  published_at = v.published_at;
  body = video_body v;
  artifact_kind = codes "transcript";
  content_type = plain_text;
}

unfoldable pub candidates_from_videos : List YouTubeItem → List SourceCandidate
candidates_from_videos [] = []
candidates_from_videos (v ∷ vs) =
    let rest = candidates_from_videos vs in
    if is_nil (trim (video_body v)) then rest else candidate_from_video v ∷ rest

unfoldable pub item_content_type : SourceCandidate → Text
item_content_type c =
    if c.source_type == source_type_x
    then if c.artifact_kind == codes "article" then codes "article" else codes "post"
    else if c.source_type == source_type_youtube
    then codes "video"
    else codes "document"
