-- ===== src/Values.antt =====
-- The plain values of driver/: wallet_properties, balance_report, publisher_banner, content_site,
-- contribution_info and recurring_donation, each with its default constructor and its copy
-- constructor. A member that a constructor leaves alone keeps what the memory held.
mod Copies
use bat_native_ledger_isolat.Prelude.{ℕ, ℤ, pos, String, false, List, []}
use bat_native_ledger_isolat.Ledger.{Grant, Ledger}
use bat_native_ledger_isolat.Service.{ContentSite}
use bat_native_ledger_isolat.Database.Writes.{ContributionInfo, RecurringDonation}

pub record BalanceReport : Type 0 where
  pub opening_balance : String
  pub closing_balance : String
  pub deposits : String
  pub grants : String
  pub earning_from_ads : String
  pub auto_contribute : String
  pub recurring_donation : String
  pub one_time_donation : String
  pub total : String

pub record WalletProperties (D : Type 0) : Type 0 where
  pub probi : String
  pub balance : D
  pub rates : List (String × D)
  pub parameters_choices : List D
  pub parameters_range : List D
  pub parameters_days : ℕ
  pub grants : List Grant

pub record PublisherBanner : Type 0 where
  pub publisher_key : String
  pub title : String
  pub name : String
  pub description : String
  pub background : String
  pub logo : String
  pub amounts : List ℤ
  pub social : List (String × String)

unfoldable pub new_balance_report : BalanceReport
new_balance_report = record {
  opening_balance = "0";
  closing_balance = "0";
  deposits = "0";
  grants = "0";
  earning_from_ads = "0";
  auto_contribute = "0";
  recurring_donation = "0";
  one_time_donation = "0";
  total = "0";
}

unfoldable pub copy_balance_report : BalanceReport → BalanceReport
copy_balance_report properties = record {
  opening_balance = properties.opening_balance;
  closing_balance = properties.closing_balance;
  grants = properties.grants;
  deposits = properties.deposits;
  earning_from_ads = properties.earning_from_ads;
  auto_contribute = properties.auto_contribute;
  recurring_donation = properties.recurring_donation;
  one_time_donation = properties.one_time_donation;
  total = properties.total;
}

unfoldable pub new_publisher_banner : PublisherBanner
new_publisher_banner = record {
  publisher_key = "";
  title = "";
  name = "";
  description = "";
  background = "";
  logo = "";
  amounts = [];
  social = [];
}

unfoldable pub copy_publisher_banner : PublisherBanner → PublisherBanner
copy_publisher_banner properties = record {
  publisher_key = properties.publisher_key;
  title = properties.title;
  name = properties.name;
  description = properties.description;
  background = properties.background;
  logo = properties.logo;
  amounts = properties.amounts;
  social = properties.social;
}

-- The members that the default constructor leaves alone.
unfoldable pub new_contribution_info : ContributionInfo → ContributionInfo
new_contribution_info memory = record memory { probi = ""; date = 0; publisher_key = "" }

unfoldable pub copy_contribution_info : ContributionInfo → ContributionInfo
copy_contribution_info info = record {
  probi = info.probi;
  month = info.month;
  year = info.year;
  category = info.category;
  date = info.date;
  publisher_key = info.publisher_key;
}

module _ {D : Type 0} where
  unfoldable pub copy_wallet_properties : WalletProperties D → WalletProperties D
  copy_wallet_properties properties = record {
    probi = properties.probi;
    balance = properties.balance;
    rates = properties.rates;
    parameters_choices = properties.parameters_choices;
    parameters_range = properties.parameters_range;
    parameters_days = properties.parameters_days;
    grants = properties.grants;
  }

  unfoldable pub copy_content_site : ContentSite D → ContentSite D
  copy_content_site properties = record {
    percentage = properties.percentage;
    verified = properties.verified;
    excluded = properties.excluded;
    name = properties.name;
    favicon_url = properties.favicon_url;
    url = properties.url;
    provider = properties.provider;
    id = properties.id;
    reconcile_stamp = properties.reconcile_stamp;
  }

  unfoldable pub copy_recurring_donation : RecurringDonation D → RecurringDonation D
  copy_recurring_donation donation = record {
    publisher_key = donation.publisher_key;
    amount = donation.amount;
    added_date = donation.added_date;
  }

module _ {D : Type 0} (l : Ledger D) where
  unfoldable pub new_wallet_properties : WalletProperties D
  new_wallet_properties = record {
    probi = "";
    balance = l.double_of_ℤ (pos 0);
    rates = [];
    parameters_choices = [];
    parameters_range = [];
    parameters_days = 0;
    grants = [];
  }

  -- `ContentSite()`: `verified`, `excluded` and the stamp are what the memory held.
  unfoldable pub new_content_site : ContentSite D → ContentSite D
  new_content_site memory = record memory {
    id = "";
    percentage = l.double_of_ℤ (pos 0);
    name = "";
    favicon_url = "";
    url = "";
    provider = "";
  }

  unfoldable pub named_content_site : String → ContentSite D
  named_content_site site_id = record {
    id = site_id;
    percentage = l.double_of_ℤ (pos 0);
    verified = false;
    excluded = pos 0;
    name = "";
    favicon_url = "";
    url = "";
    provider = "";
    reconcile_stamp = 0;
  }

  unfoldable pub new_recurring_donation : RecurringDonation D
  new_recurring_donation = record {
    publisher_key = "";
    amount = l.double_of_ℤ (pos 0);
    added_date = 0;
  }
