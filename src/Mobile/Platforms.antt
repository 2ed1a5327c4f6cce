-- ===== src/Mobile/Platforms.antt =====
-- mobile/src/config/platforms.tsx, without the glyphs
use postal.Prelude.{
  String, ℕ, Option, none, some, List, [], ◌∷◌, Bool, true, false, str_eq, find, value_or,
}

pub record PlatformInfo : Type 0 where
  pub key : String
  pub label : String
  pub hint : String
  pub char_limit : Option ℕ
  pub pay_per_use : Bool
  pub requires_media : Bool
  pub caveat : Option String
  pub manual : Bool

abbrev pub platforms : List PlatformInfo
platforms =
    record {
      key = "twitter";
      label = "X (Twitter)";
      hint = "Publish posts and threads to an X account.";
      char_limit = some 280;
      pay_per_use = true;
      requires_media = false;
      caveat = none;
      manual = false;
    }
    ∷ record {
      key = "instagram";
      label = "Instagram";
      hint = "Publish images and Reels to an Instagram Business or Creator account.";
      char_limit = some 2200;
      pay_per_use = false;
      requires_media = true;
      caveat =
          some "Needs a Business/Creator account linked to a Facebook Page. No text-only posts.";
      manual = false;
    }
    ∷ record {
      key = "facebook";
      label = "Facebook";
      hint = "Publish text, links, photos, and videos to a Facebook Page.";
      char_limit = none;
      pay_per_use = false;
      requires_media = false;
      caveat = some "Posts to a Facebook Page you manage, not a personal profile.";
      manual = false;
    }
    ∷ record {
      key = "telegram";
      label = "Telegram";
      hint = "Publish to a Telegram channel or group via your own bot.";
      char_limit = none;
      pay_per_use = false;
      requires_media = false;
      caveat =
          some "Create a bot with @BotFather, add it as admin, then enter its token and chat id.";
      manual = true;
    }
    ∷ record {
      key = "tiktok";
      label = "TikTok";
      hint = "Publish videos and photo posts to a TikTok account.";
      char_limit = some 2200;
      pay_per_use = false;
      requires_media = true;
      caveat =
          some
            "No text-only posts. Until the app passes TikTok's audit, API posts stay private to you.";
      manual = false;
    }
    ∷ []

unfoldable pub platform_info : String → PlatformInfo
platform_info key = value_or (find (λ p. str_eq p.key key) platforms) (record {
  key = key;
  label = key;
  hint = "";
  char_limit = none;
  pay_per_use = false;
  requires_media = false;
  caveat = none;
  manual = false;
})
