-- ===== src/Api/Tests.antt =====
-- Answers of the server, and the theorems about them.
use pikoci.Base.{true, false, none, some, [], ◌≡◌, ◌⊎◌}
use pikoci.Session.{Session, logout}
use pikoci.Api.{Response, Options, World, api}
use pikoci.Api.Effects.{IsQuiet, IsExpired, api_session}

abbrev session : Session
session = record { jwt = some "token"; user = none }

abbrev page : World
page = record {
  store = record { session = session; stored = some session };
  error = "";
  success = "Saved";
  toasts = [];
  location = none;
  refreshed = 0;
}

abbrev fine : Response
fine = record { status = 200; ok = true; refreshes = false; status_text = "OK"; body_error = none }

abbrev gateway : Response
gateway = record {
  status = 502;
  ok = false;
  refreshes = false;
  status_text = "Bad Gateway";
  body_error = none;
}

abbrev expired : Response
expired = record {
  status = 401;
  ok = false;
  refreshes = false;
  status_text = "Unauthorized";
  body_error = some "Authentication required";
}

abbrev plain : Options
plain = record { is_interval = false; silent = false }

api_session_example :
    (IsExpired expired page
      × ((api plain (some expired) page).1.store ≡ logout page.store)
      × ((api plain (some expired) page).1.location ≡ some "/login")
      × IsQuiet page (api plain (some expired) page).1)
    ⊎ ((¬ IsExpired expired page)
        × ((api plain (some expired) page).1.store ≡ page.store)
        × ((api plain (some expired) page).1.location ≡ page.location))
api_session_example = api_session plain expired page
