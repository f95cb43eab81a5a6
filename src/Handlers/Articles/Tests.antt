-- ===== src/Handlers/Articles/Tests.antt =====
-- Requests of a reader.
use goread.Base.{int_Eq, pair_Eq, string_Eq, false, none, some, [], pos}
use goread.Database.{User}
use goread.Database.Tests.{small_db}
use goread.Cache.Unread.{new_unread_cache}
use goread.Cache.FeedList.{new_feed_list_cache}
use goread.Handlers.Server.{Server, Atoi}
use goread.Handlers.Articles.{Query, get_articles}
use goread.Handlers.Articles.Paging.{Answers, get_articles-Answers}

abbrev reader : User
reader = record {
  id = pos 5;
  google_id = "g5";
  email = "five@a.example";
  name = "Five";
  avatar = "";
  created_at = 1;
  subscription_status = "trial";
  subscription_id = "";
  trial_ends_at = 1000;
  last_payment_date = 0;
  next_billing_date = 0;
  is_admin = false;
  free_months_remaining = pos 0;
  max_articles_on_feed_add = pos 100;
}

abbrev server : Server
server = record {
  service = record {
    db = small_db;
    unread_cache = new_unread_cache 300;
    feed_list_cache = new_feed_list_cache 300;
  };
  user_feeds = [];
}

abbrev no_number : Atoi
no_number text = none

abbrev plain_query : Query
plain_query = record { limit = "0"; cursor = ""; unread_only = "true" }

abbrev zero : Atoi
zero text = some (pos 0)

get_articles-Answers_example :
    Answers (get_articles zero (λ text. none) "all" plain_query (some reader) server) server
get_articles-Answers_example =
    get_articles-Answers zero (λ text. none) "all" plain_query (some reader) server
